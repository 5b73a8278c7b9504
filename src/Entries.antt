-- ===== src/Entries.antt =====
-- The handlers that change entries, of backend/internal/api/handlers/entries.go: create, update,
-- soft delete and share. A request body is `none` where it is no JSON. The numbers behind `call`
-- count the database calls of a request.
pub mod Access
pub mod History
pub mod Untouched
pub mod Creation
pub mod Updating
pub mod SelfSharing
use passbubble.Prelude.{
  ℕ, suc, ◌+◌, String, Bool, true, false, not, ◌&&◌, ◌||◌, Option, none, some, List, [], ◌∷◌, ◌++◌,
  ◌==◌, str_eq, if◌then◌else◌, is_none, is_some, coalesce, update_where,
}
use passbubble.Store.{
  World, Db, Claims, IdText, is_id_text_blank, Response, error, reply, EntryRow, Bytes, ◌>>=◌, ◌>>◌,
  call, require, has_user, has_entry, user_ref, folder_ref, put_key, put_permission, or_keep,
  or_fail,
}
use Access.{entry_perm, valid_entry_type}
use History.{snapshot_version}

pub record EntryKey : Type 0 where
  pub user_id : IdText
  pub encrypted_key : String

-- `created_at` and `updated_at` are `some none` where the text is no timestamp.
pub record CreateEntryRequest : Type 0 where
  pub folder_id : Option IdText
  pub kind : String
  pub name : String
  pub url : String
  pub match_patterns : Option (List String)
  pub encrypted_data : String
  pub data_nonce : String
  pub entry_keys : List EntryKey
  pub created_at : Option (Option ℕ)
  pub updated_at : Option (Option ℕ)

pub record UpdateEntryRequest : Type 0 where
  pub folder_id : Option IdText
  pub name : String
  pub url : Option String
  pub match_patterns : Option (List String)
  pub encrypted_data : String
  pub data_nonce : String
  pub entry_keys : List EntryKey

pub record ShareEntryRequest : Type 0 where
  pub user_id : IdText
  pub permission : String
  pub encrypted_key : String

abbrev pub is_empty {ℓ} : {A : Type ℓ} → List A → Bool
is_empty [] = true
is_empty (x ∷ xs) = false

-- COALESCE($n::timestamptz, NOW())
unfoldable pub stamp : ℕ → Option (Option ℕ) → Option ℕ
stamp now none = some now
stamp now (some t) = t

-- The statement fails if the key is no base64 or names no user or no entry.
unfoldable pub upsert_key : World → ℕ → ℕ → IdText → String → Db → Option Db
upsert_key w n entry user key db = do
  call w n
  u ← user_ref db user
  k ← w.decode64 key
  require (has_entry db entry)
  some (record db { entry_keys = put_key entry u k db.entry_keys })

unfoldable pub insert_keys : World → ℕ → ℕ → List EntryKey → Db → Db
insert_keys w n entry [] db = db
insert_keys w n entry (k ∷ ks) db =
    insert_keys w (suc n) entry ks (or_keep db (upsert_key w n entry k.user_id k.encrypted_key db))

unfoldable pub insert_entry : World → ℕ → Claims → CreateEntryRequest → ℕ → Db → Option Db
insert_entry w n caller req id db = do
  call w n
  folder ← folder_ref db req.folder_id
  require (has_user db caller.user_id)
  payload ← w.decode64 req.encrypted_data
  nonce ← w.decode64 req.data_nonce
  created ← stamp w.now req.created_at
  updated ← stamp w.now req.updated_at
  some (record db {
    entries =
        db.entries
        ++ record {
          id = id;
          folder_id = folder;
          owner_id = caller.user_id;
          kind = req.kind;
          name = req.name;
          url = some req.url;
          match_patterns = req.match_patterns;
          encrypted_data = payload;
          data_nonce = nonce;
          favorite = false;
          created_at = created;
          updated_at = updated;
          deleted_at = none;
        }
          ∷ [];
  })

-- INSERT INTO entry_permissions ... 'owner' ... ON CONFLICT DO NOTHING, its error dropped.
unfoldable pub grant_owner : World → ℕ → ℕ → ℕ → Db → Db
grant_owner w n entry user db = or_keep db do
  call w n
  require (has_entry db entry && has_user db user)
  some (record db {
    entry_permissions =
        db.entry_permissions
        ++ record { resource = entry; user_id = user; permission = "owner"; granted_by = none }
          ∷ [];
  })

-- CreateEntry
unfoldable pub create_entry : World → Claims → Option CreateEntryRequest → Db → Db × Response ℕ
create_entry w caller none db = (db, error 400 "name, type, encrypted_data, data_nonce required")
create_entry w caller (some req) db =
    if str_eq req.name ""
      || str_eq req.kind ""
      || str_eq req.encrypted_data ""
      || str_eq req.data_nonce ""
    then (db, error 400 "name, type, encrypted_data, data_nonce required")
    else if not (valid_entry_type req.kind)
    then (db, error 400 "invalid entry type")
    else if is_empty req.entry_keys
    then (db, error 400 "at least one entry_key required")
    else (let id = w.uuid 0 in
        or_fail db (error 500 "failed to create entry") (insert_entry w 0 caller req id db) λ db'.
          (grant_owner w 1 id caller.user_id (insert_keys w 2 id req.entry_keys db'), reply 201 id))

-- The columns that UPDATE entries SET ... assigns; an empty text keeps the payload or the nonce.
unfoldable pub patch : World → UpdateEntryRequest → Option ℕ → Bytes → Bytes → EntryRow → EntryRow
patch w req folder payload nonce e = record e {
  name = if str_eq req.name "" then e.name else req.name;
  url = if is_some req.url then req.url else e.url;
  match_patterns = if is_some req.match_patterns then req.match_patterns else e.match_patterns;
  encrypted_data = if str_eq req.encrypted_data "" then e.encrypted_data else payload;
  data_nonce = if str_eq req.data_nonce "" then e.data_nonce else nonce;
  folder_id = folder;
  updated_at = w.now;
}

-- decode($n, 'base64') where the text is not empty.
unfoldable pub decode_if : World → String → Option Bytes
decode_if w s = if str_eq s "" then some [] else w.decode64 s

unfoldable pub update_columns : World → ℕ → ℕ → UpdateEntryRequest → Db → Option Db
update_columns w n entry req db = do
  call w n
  folder ← folder_ref db req.folder_id
  payload ← decode_if w req.encrypted_data
  nonce ← decode_if w req.data_nonce
  some (record db {
    entries = update_where (λ r. r.id == entry) (patch w req folder payload nonce) db.entries;
  })

-- Inside a transaction a failed statement aborts it: what follows fails too, the commit included.
unfoldable pub upsert_keys_tx : World → ℕ → ℕ → List EntryKey → Db → Option Db
upsert_keys_tx w n entry [] db = some db
upsert_keys_tx w n entry (k ∷ ks) db = do
  db' ← upsert_key w n entry k.user_id k.encrypted_key db
  upsert_keys_tx w (suc n) entry ks db'

-- The snapshot is taken only where the payload is replaced.
unfoldable pub snapshot_if_replaced : World → ℕ → ℕ → UpdateEntryRequest → Db → Option Db
snapshot_if_replaced w entry user req db =
    if str_eq req.encrypted_data "" then some db else snapshot_version w 2 entry user none db

-- The statements of UpdateEntry's transaction behind the snapshot, and its commit (call 6).
unfoldable pub update_rest : World → ℕ → UpdateEntryRequest → Db → Option Db
update_rest w entry req db = do
  db₁ ← update_columns w 5 entry req db
  db₂ ← upsert_keys_tx w 7 entry req.entry_keys db₁
  call w 6
  some db₂

-- UpdateEntry
unfoldable pub update_entry :
    World → Claims → ℕ → Option UpdateEntryRequest → Db → Db × Response (Unit {0})
update_entry w caller entry none db = (db, error 400 "invalid request body")
update_entry w caller entry (some req) db =
    if not (entry_perm w 0 db entry caller.user_id ("write" ∷ "owner" ∷ []))
    then (db, error 403 "insufficient permissions")
    else if w.fails 1
    then (db, error 500 "failed to update entry")
    else or_fail db (error 500 "failed to version entry")
        (snapshot_if_replaced w entry caller.user_id req db)
        λ db'.
          or_fail db (error 500 "failed to update entry") (update_rest w entry req db')
            λ db''. (db'', reply 204 tt)

-- DeleteEntry: the entry moves to the trash.
unfoldable pub delete_entry : World → Claims → ℕ → Db → Db × Response (Unit {0})
delete_entry w caller entry db =
    if not (entry_perm w 0 db entry caller.user_id ("owner" ∷ []))
    then (db, error 403 "only owner can delete")
    else if w.fails 1
    then (db, error 500 "failed to delete entry")
    else (
      record db {
        entries =
            update_where (λ r. r.id == entry && is_none r.deleted_at)
              (λ r. record r { deleted_at = some w.now }) db.entries;
      },
      reply 204 tt,
    )

-- The permission of a share, "read" where the request names none.
abbrev pub share_permission : String → String
share_permission p = if str_eq p "" then "read" else p

-- INSERT INTO entry_permissions ... ON CONFLICT DO UPDATE, its error dropped.
unfoldable pub grant : World → ℕ → ℕ → IdText → String → ℕ → Db → Db
grant w n entry user perm granter db = or_keep db do
  call w n
  u ← user_ref db user
  require (has_entry db entry && has_user db granter)
  some (record db {
    entry_permissions =
        put_permission entry u (share_permission perm) (some granter) db.entry_permissions;
  })

-- ShareEntry
unfoldable pub share_entry :
    World → Claims → ℕ → Option ShareEntryRequest → Db → Db × Response (Unit {0})
share_entry w caller entry none db = (db, error 400 "user_id and encrypted_key required")
share_entry w caller entry (some req) db =
    if is_id_text_blank req.user_id || str_eq req.encrypted_key ""
    then (db, error 400 "user_id and encrypted_key required")
    else if not (entry_perm w 0 db entry caller.user_id ("owner" ∷ []))
    then (db, error 403 "only owner can share")
    else or_fail db (error 500 "failed to share entry")
        (upsert_key w 1 entry req.user_id req.encrypted_key db)
        λ db'. (grant w 2 entry req.user_id req.permission caller.user_id db', reply 204 tt)
