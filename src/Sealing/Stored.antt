-- ===== src/Sealing/Stored.antt =====
-- What GetEntry of backend/internal/api/handlers/entries.go answers after a CreateEntry.
use passbubble.Prelude.{
  ℕ, String, true, false, ◌&&◌, none, some, List, [], ◌∷◌, ◌++◌, ◌==◌, is_some, ◌≡◌, ◌≢◌, refl, ap,
  arith, find_where, find-append_hit, Bool-cases, Option-cases, inl, inr, exists_where_lem,
  find-none_and, ◌∙◌,
}
use passbubble.Store.{
  World, Claims, Db, Bytes, EntryRow, KeyRow, Response, reply, uuid, ◌>>=◌, Returns, Returns-bind,
  Returns-some, key_of, put_key, user_ref, has_entry, has_user,
}
use passbubble.Entries.{
  CreateEntryRequest, insert_entry, insert_keys, upsert_key, grant_owner, create_entry,
}
use passbubble.Reading.{EntryResponse, is_visible, own_key, key_text, entry_response, get_entry}

-- A row that its owner sees, with the payload.
record IsRow (id user : ℕ) (payload : Bytes) (e : EntryRow) : Type 0 where
  named : e.id ≡ id
  owned : e.owner_id ≡ user
  kept : e.deleted_at ≡ none
  linked : is_some e.url ≡ true
  holds : e.encrypted_data ≡ payload

insert_entry-Returns :
    (w : World) (caller : Claims) (req : CreateEntryRequest) (id : ℕ) (payload : Bytes) (db : Db)
    → w.decode64 req.encrypted_data ≡ some payload
    → Returns
        (λ db₁.
          (e : EntryRow) × (IsRow id caller.user_id payload e
            × (db₁ ≡ record db { entries = db.entries ++ e ∷ [] })
            × (has_user db caller.user_id ≡ true)))
        (insert_entry w 0 caller req id db)
unfolding insert_entry
insert_entry-Returns w caller req id payload db decoded = Returns-bind _ _ λ _ _.
    Returns-bind _ _ λ folder _. Returns-bind _ _ λ _ user. Returns-bind _ _ λ payload₁ h.
      Returns-bind _ _ λ nonce _. Returns-bind _ _ λ created _. Returns-bind _ _ λ updated _.
        Returns-some (
          _,
          (
            record { named = refl; owned = refl; kept = refl; linked = refl; holds = ground arith },
            refl,
            ground arith,
          ),
        )

-- The one key of the request, for the caller.
put_key_fresh :
    (id user : ℕ) (key : Bytes) (rows : List KeyRow)
    → find_where (key_of id user) rows ≡ none
    → find_where (key_of id user) (put_key id user key rows)
      ≡ some record { holder = id; user_id = user; encrypted_key = key }
unfolding put_key
put_key_fresh id user key rows h = ground (
  arith,
  exists_where_lem (key_of id user) rows,
  find-append_hit (key_of id user) rows
      (record { holder = id; user_id = user; encrypted_key = key }) h (ground arith),
)

visible_hit :
    (w : World) (caller : Claims) (id : ℕ) (payload : Bytes) (db : Db) (e : EntryRow)
    (rows : List EntryRow)
    → IsRow id caller.user_id payload e
    → find_where (λ r. r.id == id) rows ≡ none
    → find_where (λ r. r.id == id && is_visible db caller.user_id r) (rows ++ e ∷ []) ≡ some e
unfolding is_visible
visible_hit w caller id payload db e rows row fresh =
    find-append_hit (λ r. r.id == id && is_visible db caller.user_id r) rows e
      (find-none_and (λ r. r.id == id) (is_visible db caller.user_id) rows fresh)
      (ground (arith, row.named, row.owned, row.kept, row.linked))

-- What of the database GetEntry answers from.
record Holds (id user : ℕ) (payload key : Bytes) (db : Db) : Type 0 where
  row : EntryRow
  found : find_where (λ r. r.id == id && is_visible db user r) db.entries ≡ some row
  payload_eq : row.encrypted_data ≡ payload
  key_eq : own_key db user id ≡ some key

grant_owner-entries :
    (w : World) (n entry user : ℕ) (db : Db)
    → ((grant_owner w n entry user db).entries ≡ db.entries)
      × ((grant_owner w n entry user db).entry_keys ≡ db.entry_keys)
unfolding grant_owner ◌>>=◌
grant_owner-entries w n entry user db = elim (Bool-cases (w.fails n)) [
  | inl e ↦ (ground arith, ground arith)
  | inr e ↦ elim (Bool-cases (has_entry db entry && has_user db user)) [
    | inl f ↦ (ground arith, ground arith)
    | inr f ↦ (ground arith, ground arith)
  ]
]

insert_keys_one :
    (w : World) (id user : ℕ) (text : String) (key : Bytes) (db : Db)
    → w.fails 2 ≡ false
    → w.decode64 text ≡ some key
    → has_user db user ≡ true
    → has_entry db id ≡ true
    → insert_keys w 2 id (record { user_id = uuid user; encrypted_key = text } ∷ []) db
      ≡ record db { entry_keys = put_key id user key db.entry_keys }
unfolding insert_keys upsert_key user_ref ◌>>=◌
insert_keys_one w id user text key db works decoded user_there entry_there = ground arith

has_new_entry :
    (id user : ℕ) (payload : Bytes) (db : Db) (e : EntryRow)
    → find_where (λ r. r.id == id) db.entries ≡ none
    → IsRow id user payload e
    → has_entry (record db { entries = db.entries ++ e ∷ [] }) id ≡ true
unfolding has_entry
has_new_entry id user payload db e fresh row =
    exists_where_lem (λ r. r.id == id) (db.entries ++ e ∷ [])
    ∙ ap is_some (find-append_hit (λ r. r.id == id) db.entries e fresh (ground (arith, row.named)))

own_key_found :
    (db : Db) (user id : ℕ) (rows : List KeyRow) (k : KeyRow)
    → db.entry_keys ≡ rows
    → find_where (key_of id user) rows ≡ some k
    → own_key db user id ≡ some k.encrypted_key
unfolding own_key
own_key_found db user id rows k same h = ground arith

user_kept :
    (db : Db) (rows : List EntryRow) (user : ℕ)
    → has_user (record db { entries = rows }) user ≡ has_user db user
unfolding has_user
user_kept db rows user = refl

-- The database after the three statements of CreateEntry.
created-Holds :
    (w : World) (caller : Claims) (id : ℕ) (text : String) (payload key : Bytes) (db : Db)
    (e : EntryRow)
    → w.fails 2 ≡ false
    → w.decode64 text ≡ some key
    → has_user db caller.user_id ≡ true
    → find_where (λ r. r.id == id) db.entries ≡ none
    → find_where (key_of id caller.user_id) db.entry_keys ≡ none
    → IsRow id caller.user_id payload e
    → Holds id caller.user_id payload key (
        grant_owner w 1 id caller.user_id (
          insert_keys w 2 id
            (record { user_id = uuid caller.user_id; encrypted_key = text } ∷ [])
            (record db { entries = db.entries ++ e ∷ [] })))
created-Holds w caller id text payload key db e works decoded user_there fresh keyless row =
    let db₁ : Db = record db { entries = db.entries ++ e ∷ [] } in
    let there : has_entry db₁ id ≡ true = has_new_entry id caller.user_id payload db e fresh row in
    let one =
      insert_keys_one w id caller.user_id text key db₁ works decoded
        (user_kept db (db.entries ++ e ∷ []) caller.user_id ∙ user_there) there in
    let db₂ : Db = record db₁ { entry_keys = put_key id caller.user_id key db.entry_keys } in
    let (same_entries, same_keys) = grant_owner-entries w 1 id caller.user_id db₂ in
    rw one record {
      row = e;
      found = rw same_entries (visible_hit w caller id payload _ e db.entries row fresh);
      payload_eq = row.holds;
      key_eq =
          own_key_found _ caller.user_id id (put_key id caller.user_id key db.entry_keys) _
            same_keys (put_key_fresh id caller.user_id key db.entry_keys keyless);
    }

pub record IsNew (id user : ℕ) (db : Db) : Type 0 where
  pub no_entry : find_where (λ r. r.id == id) db.entries ≡ none
  pub no_key : find_where (key_of id user) db.entry_keys ≡ none

-- What the answer of GetEntry holds.
pub record Shows (w : World) (payload key : Bytes) (answer : Response EntryResponse) : Type 0 where
  pub shown : EntryResponse
  pub answer_eq : answer ≡ reply 200 shown
  pub data_eq : shown.encrypted_data ≡ w.encode64 payload
  pub key_eq : shown.entry_key ≡ key_text w (some key)

Holds-Shows :
    (w : World) (caller : Claims) (id : ℕ) (payload key : Bytes) (db : Db)
    → w.fails 0 ≡ false
    → w.fails 1 ≡ false
    → Holds id caller.user_id payload key db
    → Shows w payload key (get_entry w caller id db)
unfolding get_entry entry_response
Holds-Shows w caller id payload key db works works₁ h = record {
  shown = entry_response w (some key) h.row;
  answer_eq = ground (arith, h.found, h.key_eq);
  data_eq = ap w.encode64 h.payload_eq;
  key_eq = refl;
}

refused_fails :
    (w : World) (caller : Claims) (req : CreateEntryRequest) (db : Db) (id : ℕ)
    → insert_entry w 0 caller req (w.uuid 0) db ≡ none
    → (create_entry w caller (some req) db).1 ≢ reply 201 id
unfolding create_entry
refused_fails w caller req db id refused h = ground arith

create_entry_done :
    (w : World) (caller : Claims) (req : CreateEntryRequest) (db db₁ : Db) (id : ℕ)
    → insert_entry w 0 caller req (w.uuid 0) db ≡ some db₁
    → (create_entry w caller (some req) db).1 ≡ reply 201 id
    → (w.uuid 0 ≡ id)
      × ((create_entry w caller (some req) db).0
          ≡ grant_owner w 1
              (w.uuid 0)
              caller.user_id
              (insert_keys w 2 (w.uuid 0) req.entry_keys db₁))
unfolding create_entry
create_entry_done w caller req db db₁ id inserted h = (ground arith, ground arith)

-- After a CreateEntry with one key, the caller's own, a GetEntry whose queries come through shows
-- the payload and the key.
pub create_entry-Shows :
    (w later : World) (caller : Claims) (req : CreateEntryRequest) (text : String)
    (payload key : Bytes) (db : Db) (id : ℕ)
    → IsNew (w.uuid 0) caller.user_id db
    → req.entry_keys ≡ record { user_id = uuid caller.user_id; encrypted_key = text } ∷ []
    → w.decode64 req.encrypted_data ≡ some payload
    → w.decode64 text ≡ some key
    → w.fails 2 ≡ false
    → later.fails 0 ≡ false
    → later.fails 1 ≡ false
    → (create_entry w caller (some req) db).1 ≡ reply 201 id
    → Shows later payload key (get_entry later caller id (create_entry w caller (some req) db).0)
create_entry-Shows w later caller req text payload key db id new keys decoded decoded_key works ok
      ok₁ h =
    elim (Option-cases (insert_entry w 0 caller req (w.uuid 0) db)) [
      | inl refused ↦ absurd (refused_fails w caller req db id refused h)
      | inr (db₁, inserted) ↦
          let (e, (row, same, user_there)) =
            (insert_entry-Returns w caller req (w.uuid 0) payload db decoded).at db₁ inserted in
          let (named, final) = create_entry_done w caller req db db₁ id inserted h in
          let holds =
            created-Holds w caller (w.uuid 0) text payload key db e works decoded_key user_there
              new.no_entry new.no_key row in
          rw (← named, final, keys, same)
            (Holds-Shows later caller (w.uuid 0) payload key _ ok ok₁ holds)
    ]
