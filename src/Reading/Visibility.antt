-- ===== src/Reading/Visibility.antt =====
-- Who is shown which entry by GetEntry of backend/internal/api/handlers/entries.go.
use passbubble.Prelude.{
  ℕ, String, Bool, true, false, ◌&&◌, none, some, List, [], ◌∷◌, ◌==◌, if◌then◌else◌, ◌≡◌, refl,
  arith, ◌∙◌, ap, is_none, select_where, find_where, find_sound, update_where, order_by-perm,
  take_while-delivered, take_while-All, take_while-all, drop-length, find-same, Option-cases,
  Bool-cases, inl, inr, subst, length, is_some, Option, All, ◌++◌, ◌||◌, exists_where, take_while,
  delivered, drop, sym,
}
use mathlib.Core.List.{Perm}
use passbubble.Store.{World, Db, Claims, error, reply, EntryRow, KeyRow, Bytes}
use passbubble.Entries.{delete_entry}
use passbubble.Reading.{
  is_visible, is_listed, EntryResponse, key_text, own_key, entry_response, scanned, get_entry,
  visible_entries, list_entries,
}

-- The caller owns the entry or holds a permission on it, and it is not in the trash.
unfoldable pub may_see : Db → ℕ → EntryRow → Bool
may_see db user e =
    (e.owner_id == user
      || exists_where (λ p. p.resource == e.id && p.user_id == user) db.entry_permissions)
    && is_none e.deleted_at

-- The wrapped key of a user to an entry, in base64, where there is one that is not empty.
abbrev pub key_shown : World → Option KeyRow → Option String
key_shown w none = none
key_shown w (some k) =
    if length k.encrypted_key == 0 then none else some (w.encode64 k.encrypted_key)

-- An entry that is shown is the one asked for, the caller may see it, its payload is the stored one,
-- and the key shown is the caller's own, or none where the query for it fails.
pub record IsAllowed (w : World) (user id : ℕ) (db : Db) (r : EntryResponse) : Type 0 where
  pub asked : r.entry.id ≡ id
  pub stored :
      find_where (λ e. e.id == id && may_see db user e && is_some e.url) db.entries ≡ some r.entry
  pub accessible : may_see db user r.entry ≡ true
  pub payload : r.encrypted_data ≡ w.encode64 r.entry.encrypted_data
  pub nonce : r.data_nonce ≡ w.encode64 r.entry.data_nonce
  pub key :
      w.fails 1 ≡ false
      → r.entry_key
        ≡ key_shown w (find_where (λ k. k.holder == id && k.user_id == user) db.entry_keys)
  pub no_key : w.fails 1 ≡ true → r.entry_key ≡ none

key_text_shown : (w : World) (k : KeyRow) → key_text w (some k.encrypted_key) ≡ key_shown w (some k)
key_text_shown w k = encoded k.encrypted_key
  where
    encoded :
        (bytes : Bytes)
        → key_text w (some bytes) ≡ (if length bytes == 0 then none else some (w.encode64 bytes))
    encoded [] = refl
    encoded (b ∷ bs) = ground arith

key_text-own_key :
    (w : World) (db : Db) (user id : ℕ)
    → key_text w (own_key db user id)
      ≡ key_shown w (find_where (λ k. k.holder == id && k.user_id == user) db.entry_keys)
unfolding own_key
key_text-own_key w db user id =
    elim (Option-cases (find_where (λ k. k.holder == id && k.user_id == user) db.entry_keys)) [
      | inl e ↦ rw (own_key, e) refl
      | inr (k, e) ↦ rw (own_key, e) (key_text_shown w k)
    ]

response-IsAllowed :
    (w : World) (user id : ℕ) (db : Db) (x : EntryRow)
    → find_where (λ e. e.id == id && is_visible db user e) db.entries ≡ some x
    → IsAllowed w user id db (entry_response w (if w.fails 1 then none else own_key db user id) x)
unfolding is_visible entry_response may_see
response-IsAllowed w user id db x found =
    let good = find_sound (λ e. e.id == id && is_visible db user e) db.entries {a = x} found in
    record {
      asked = ground arith;
      stored =
          find-same (λ e. e.id == id && may_see db user e && is_some e.url)
            (λ e. e.id == id && is_visible db user e) db.entries (λ e. ground arith)
          ∙ found;
      accessible = ground arith;
      payload = refl;
      nonce = refl;
      key = λ ok. rw ok (key_text-own_key w db user id);
      no_key = λ failed. rw failed refl;
    }

-- If GetEntry is answered 200, then what it shows is allowed: the entry asked for, that the
-- caller owns or holds a permission on and that is not in the trash, with its stored payload, and
-- with the key that is stored for the caller and this entry, or none where there is none, where
-- it is empty or where the query for it fails.
pub get_entry-IsAllowed :
    (w : World) (caller : Claims) (id : ℕ) (db : Db) (r : EntryResponse)
    → get_entry w caller id db ≡ reply 200 r
    → IsAllowed w caller.user_id id db r
unfolding get_entry
get_entry-IsAllowed w caller id db r h =
    elim (Option-cases
      (find_where (λ e. e.id == id && is_visible db caller.user_id e) db.entries)) [
        | inl e ↦ absurd (ground arith)
        | inr (x, e) ↦
            subst (IsAllowed w caller.user_id id db) (ground arith)
              (response-IsAllowed w caller.user_id id db x e)
      ]

trashed_unseen :
    (seen : EntryRow → Bool)
    → ((r : EntryRow) → seen r ≡ true → r.deleted_at ≡ none)
    → (r : EntryRow) → is_none r.deleted_at ≡ false
    → seen r ≡ false
trashed_unseen seen live r away = elim (Bool-cases (seen r)) [
  | inl e ↦ absurd (ground (arith, live r e))
  | inr e ↦ e
]

all_away :
    (id t : ℕ) (seen : EntryRow → Bool) (rows : List EntryRow)
    → ((r : EntryRow) → seen r ≡ true → r.deleted_at ≡ none)
    → find_where
        (λ e. e.id == id && seen e)
        (update_where
          (λ r. r.id == id && is_none r.deleted_at)
          (λ r. record r { deleted_at = some t })
          rows)
      ≡ none
unfolding find_where update_where
all_away id t seen [] live = refl
all_away id t seen (r ∷ rows) live = ground (
  arith,
  all_away id t seen rows live,
  trashed_unseen seen live r,
  trashed_unseen seen live (record r { deleted_at = some t }),
)

visible_live :
    (db : Db) (user : ℕ) (r : EntryRow) → is_visible db user r ≡ true → r.deleted_at ≡ none
unfolding is_visible
visible_live db user r h = elim (Option-cases r.deleted_at) [
  | inl d ↦ d
  | inr (t, d) ↦ absurd (ground arith)
]

delete_entry-entries :
    (w : World) (caller : Claims) (id : ℕ) (db db' : Db)
    → delete_entry w caller id db ≡ (db', reply 204 tt)
    → db'.entries
      ≡ update_where
          (λ r. r.id == id && is_none r.deleted_at)
          (λ r. record r { deleted_at = some w.now })
          db.entries
unfolding delete_entry
delete_entry-entries w caller id db db' h = ground (arith, h)

get_entry-none :
    (w : World) (caller : Claims) (id : ℕ) (db : Db)
    → find_where (λ e. e.id == id && is_visible db caller.user_id e) db.entries ≡ none
    → get_entry w caller id db ≡ error 404 "entry not found"
unfolding get_entry
get_entry-none w caller id db h = ground (arith, h)

-- Once a DeleteEntry is answered 204, GetEntry answers 404 for that entry, whoever asks.
pub delete_entry-hides :
    (w later : World) (caller reader : Claims) (id : ℕ) (db db' : Db)
    → delete_entry w caller id db ≡ (db', reply 204 tt)
    → get_entry later reader id db' ≡ error 404 "entry not found"
delete_entry-hides w later caller reader id db db' h = get_entry-none later reader id db' (
    ap (find_where (λ e. e.id == id && is_visible db' reader.user_id e))
      (delete_entry-entries w caller id db db' h)
    ∙ all_away id w.now (is_visible db' reader.user_id) db.entries
        (visible_live db' reader.user_id))

abbrev has_url : EntryRow → Bool
has_url e = is_some e.url

-- The rows stand in front of others, and all of them together are the entries that the user may see,
-- each as often as it is in the table; there are no others where the reading does not break off and
-- every url is set.
pub record IsListing (w : World) (db : Db) (user : ℕ) (rows : List EntryRow) : Type 0 where
  pub others : List EntryRow
  pub permuted : Perm (rows ++ others) (select_where (may_see db user) db.entries)
  pub scanned : All (λ e. is_some e.url ≡ true) rows
  pub complete : w.breaks 0 ≡ none → All (λ e. is_some e.url ≡ true) (rows ++ others) → others ≡ []

listed_rows :
    (collation : String → String → Bool) (w : World) (caller : Claims) (db : Db)
    (rows : List EntryRow)
    → list_entries collation w caller db ≡ reply 200 rows
    → rows ≡ scanned w 0 (visible_entries collation db caller.user_id)
unfolding list_entries
listed_rows collation w caller db rows h = ground (arith, h)

visible-perm :
    (collation : String → String → Bool) (db : Db) (user : ℕ)
    → Perm (visible_entries collation db user) (select_where (may_see db user) db.entries)
unfolding visible_entries is_listed may_see
visible-perm collation db user = order_by-perm _ _

scanned-IsListing :
    (w : World) (db : Db) (user : ℕ) (all : List EntryRow)
    → Perm all (select_where (may_see db user) db.entries)
    → IsListing w db user (scanned w 0 all)
unfolding scanned delivered take_while
scanned-IsListing w db user all same = record {
  others = drop (length (take_while has_url (delivered (w.breaks 0) all))) all;
  permuted =
      subst (λ rows. Perm rows (select_where (may_see db user) db.entries))
        (sym (take_while-delivered has_url (w.breaks 0) all)) same;
  scanned = take_while-All has_url (delivered (w.breaks 0) all);
  complete = λ whole filled.
      let filled' : All (λ e. has_url e ≡ true) all =
        subst (All (λ e. has_url e ≡ true)) (take_while-delivered has_url (w.breaks 0) all)
          filled in
      rw (whole, delivered, take_while-all has_url all filled') (drop-length all);
}

-- ListEntries, where it is answered 200, shows only entries that the caller owns or holds a
-- permission on and that are not in the trash, no row more often than it is in the table; and it
-- shows all of them where the reading of the rows does not break off and each has a url.
pub list_entries-IsListing :
    (collation : String → String → Bool) (w : World) (caller : Claims) (db : Db)
    (rows : List EntryRow)
    → list_entries collation w caller db ≡ reply 200 rows
    → IsListing w db caller.user_id rows
list_entries-IsListing collation w caller db rows h =
    let shown = listed_rows collation w caller db rows h in
    subst (IsListing w db caller.user_id) (sym shown) (
      scanned-IsListing w db caller.user_id (visible_entries collation db caller.user_id)
        (visible-perm collation db caller.user_id))
