-- ===== src/Reading.antt =====
-- What a caller is shown of the entries: ListEntries, ListEntriesFull and GetEntry of
-- backend/internal/api/handlers/entries.go.
pub mod Lists
pub mod Visibility
use passbubble.Prelude.{
  ℕ, String, Bool, true, false, not, ◌&&◌, ◌||◌, Option, none, some, List, [], ◌∷◌, ◌==◌,
  if◌then◌else◌, is_none, is_some, coalesce, select_where, find_where, order_by, map, take_while,
  delivered,
}
use passbubble.Store.{World, Db, Claims, Response, error, reply, EntryRow, Bytes, key_of}
use passbubble.Entries.Access.{has_access}

-- WHERE (e.owner_id=$1 OR ep.user_id=$1) AND e.deleted_at IS NULL
unfoldable pub is_listed : Db → ℕ → EntryRow → Bool
is_listed db user e = has_access db user e && is_none e.deleted_at

-- The same of a single row, which does not scan into a text where its url is NULL.
unfoldable pub is_visible : Db → ℕ → EntryRow → Bool
is_visible db user e = has_access db user e && is_none e.deleted_at && is_some e.url

-- models.EntryResponse: the row with its payload in base64, and the caller's own wrapped key.
pub record EntryResponse : Type 0 where
  pub entry : EntryRow
  pub encrypted_data : String
  pub data_nonce : String
  pub entry_key : Option String

-- A key of no bytes reads as none.
abbrev pub key_text : World → Option Bytes → Option String
key_text w none = none
key_text w (some []) = none
key_text w (some (b ∷ bs)) = some (w.encode64 (b ∷ bs))

-- The caller's row of entry_keys.
unfoldable pub own_key : Db → ℕ → ℕ → Option Bytes
own_key db user entry = elim (find_where (key_of entry user) db.entry_keys) [
  | none ↦ none
  | some k ↦ some k.encrypted_key
]

unfoldable pub entry_response : World → Option Bytes → EntryRow → EntryResponse
entry_response w key e = record {
  entry = e;
  encrypted_data = w.encode64 e.encrypted_data;
  data_nonce = w.encode64 e.data_nonce;
  entry_key = key_text w key;
}

-- GetEntry: the query for the key is call 1, its error dropped.
unfoldable pub get_entry : World → Claims → ℕ → Db → Response EntryResponse
get_entry w caller id db =
    if w.fails 0
    then error 404 "entry not found"
    else elim (find_where (λ e. e.id == id && is_visible db caller.user_id e) db.entries) [
      | none ↦ error 404 "entry not found"
      | some e ↦
          reply 200 (entry_response w (if w.fails 1 then none else own_key db caller.user_id id) e)
    ]

-- ORDER BY e.favorite DESC, e.name, with the collation of the database.
abbrev pub stands_before : (String → String → Bool) → EntryRow → EntryRow → Bool
stands_before collation a b =
    if a.favorite
    then (if b.favorite then collation a.name b.name else true)
    else if b.favorite
    then false
    else collation a.name b.name

-- The rows that both listings query.
unfoldable pub visible_entries : (String → String → Bool) → Db → ℕ → List EntryRow
visible_entries collation db user =
    order_by (stands_before collation) (select_where (is_listed db user) db.entries)

-- The loop over the rows of call n, where rows.Err() is not looked at: it ends where the reading
-- breaks off, and at a row whose url is NULL, since a failed Scan closes the rows.
unfoldable pub scanned : World → ℕ → List EntryRow → List EntryRow
scanned w n rows = take_while (λ e. is_some e.url) (delivered (w.breaks n) rows)

-- ListEntries
unfoldable pub list_entries :
    (String → String → Bool) → World → Claims → Db → Response (List EntryRow)
list_entries collation w caller db =
    if w.fails 0
    then error 500 "failed to list entries"
    else reply 200 (scanned w 0 (visible_entries collation db caller.user_id))

-- ListEntriesFull
unfoldable pub list_entries_full :
    (String → String → Bool) → World → Claims → Db → Response (List EntryResponse)
list_entries_full collation w caller db =
    if w.fails 0
    then error 500 "failed to list entries"
    else reply 200 (
        map (λ (e : EntryRow). entry_response w (own_key db caller.user_id e.id) e)
          (scanned w 0 (visible_entries collation db caller.user_id)))
