-- ===== src/Trash.antt =====
-- The trash and the version history of backend/internal/api/handlers/trash_versions.go, and the
-- purge loop of backend/internal/services/purge.go.
pub mod Untouched
pub mod Reverting
pub mod Retention
use passbubble.Prelude.{
  ℕ, ◌*◌, ◌+◌, Bool, false, not, ◌&&◌, Option, none, some, List, [], ◌∷◌, ◌==◌, ltb, if◌then◌else◌,
  is_none, is_some, update_where, delete_where, exists_where, find_where,
}
use passbubble.Store.{
  World, Db, Claims, Response, error, reply, EntryRow, VersionRow, KeyRow, ◌>>=◌, ◌>>◌, call,
  require, key_of,
}
use passbubble.Entries.Access.{entry_perm}
use passbubble.Entries.History.{snapshot_version}
use passbubble.Entries.History.Kept.{version_row}
use passbubble.Store.{or_fail}

abbrev pub in_trash : EntryRow → Bool
in_trash e = is_some e.deleted_at

-- RestoreEntry
unfoldable pub restore_entry : World → Claims → ℕ → Db → Db × Response (Unit {0})
restore_entry w caller entry db =
    if not (entry_perm w 0 db entry caller.user_id ("owner" ∷ []))
    then (db, error 403 "only owner can restore")
    else if w.fails 1
    then (db, error 500 "failed to restore entry")
    else if not (exists_where (λ r. r.id == entry && in_trash r) db.entries)
    then (db, error 404 "entry not in trash")
    else (
      record db {
        entries =
            update_where (λ r. r.id == entry && in_trash r) (λ r. record r { deleted_at = none })
              db.entries;
      },
      reply 204 tt,
    )

-- An entry with the id goes, or a version of such an entry with the id.
unfoldable pub gone : (EntryRow → Bool) → Db → ℕ → Bool
gone p db id = exists_where (λ e. e.id == id && p e) db.entries

unfoldable pub lost : (EntryRow → Bool) → Db → ℕ → Bool
lost p db id = exists_where (λ v. v.id == id && gone p db v.entry_id) db.versions

-- DELETE FROM entries WHERE p, with the rows that ON DELETE CASCADE takes along.
unfoldable pub delete_entries : (EntryRow → Bool) → Db → Db
delete_entries p db = record db {
  entries = delete_where p db.entries;
  entry_keys = delete_where (λ k. gone p db k.holder) db.entry_keys;
  entry_permissions = delete_where (λ r. gone p db r.resource) db.entry_permissions;
  versions = delete_where (λ v. gone p db v.entry_id) db.versions;
  version_keys = delete_where (λ k. lost p db k.holder) db.version_keys;
  share_links =
      delete_where (λ l. elim l.entry_id [ none ↦ false | some e ↦ gone p db e ]) db.share_links;
}

-- PurgeEntry
unfoldable pub purge_entry : World → Claims → ℕ → Db → Db × Response (Unit {0})
purge_entry w caller entry db =
    if not (entry_perm w 0 db entry caller.user_id ("owner" ∷ []))
    then (db, error 403 "only owner can delete permanently")
    else if w.fails 1
    then (db, error 500 "failed to delete entry")
    else (delete_entries (λ e. e.id == entry) db, reply 204 tt)

-- SetFavorite
unfoldable pub set_favorite : World → Claims → ℕ → Option Bool → Db → Db × Response (Unit {0})
set_favorite w caller entry none db = (db, error 400 "invalid request body")
set_favorite w caller entry (some favorite) db =
    if not (entry_perm w 0 db entry caller.user_id ("write" ∷ "owner" ∷ []))
    then (db, error 403 "insufficient permissions")
    else if w.fails 1
    then (db, error 500 "failed to set favorite")
    else (
      record db {
        entries =
            update_where (λ r. r.id == entry && is_none r.deleted_at)
              (λ r. record r { favorite = favorite }) db.entries;
      },
      reply 204 tt,
    )

-- UPDATE entries e SET ... FROM entry_versions v
unfoldable pub revert : World → VersionRow → EntryRow → EntryRow
revert w v e = record e {
  name = v.name;
  url = if is_some v.url then v.url else e.url;
  encrypted_data = v.encrypted_data;
  data_nonce = v.data_nonce;
  updated_at = w.now;
}

-- UPDATE entry_keys k SET ... FROM entry_version_keys vk: who holds a key now and held one at the
-- version gets that one back.
unfoldable pub revert_key : List KeyRow → ℕ → KeyRow → KeyRow
revert_key version_keys version k = elim (find_where (key_of version k.user_id) version_keys) [
  | none ↦ k
  | some vk ↦ record k { encrypted_key = vk.encrypted_key }
]

-- The statements of RestoreVersion behind the snapshot: call 5 and 6, and the commit 7.
unfoldable pub revert_entry : World → ℕ → ℕ → Db → Option Db
revert_entry w entry version db = do
  call w 5
  v ← find_where (version_row entry version) db.versions
  require (exists_where (λ r. r.id == entry) db.entries)
  some (record db { entries = update_where (λ r. r.id == entry) (revert w v) db.entries })

unfoldable pub revert_keys : World → ℕ → ℕ → Db → Option Db
revert_keys w entry version db = do
  call w 6
  call w 7
  some (record db {
    entry_keys =
        update_where (λ k. k.holder == entry) (revert_key db.version_keys version) db.entry_keys;
  })

-- RestoreVersion
unfoldable pub restore_version : World → Claims → ℕ → ℕ → Db → Db × Response (Unit {0})
restore_version w caller entry version db =
    if not (entry_perm w 0 db entry caller.user_id ("write" ∷ "owner" ∷ []))
    then (db, error 403 "insufficient permissions")
    else if w.fails 1
    then (db, error 500 "failed to restore version")
    else or_fail db (error 500 "failed to restore version")
        (snapshot_version w 2 entry caller.user_id (some version) db)
        λ db₁. or_fail db (error 404 "version not found") (revert_entry w entry version db₁) λ db₂.
          or_fail db (error 500 "failed to restore version") (revert_keys w entry version db₂)
            λ db₃. (db₃, reply 204 tt)

-- 30 days in seconds.
abbrev pub trash_retention : ℕ
trash_retention = 30 * 24 * 60 * 60

-- deleted_at IS NOT NULL AND deleted_at < NOW() - retention
abbrev pub is_overdue : ℕ → EntryRow → Bool
is_overdue now e = elim e.deleted_at [ none ↦ false | some t ↦ ltb (t + trash_retention) now ]

-- purgeOnce: the second statement is not reached if the first fails.
unfoldable pub purge_once : World → Db → Db
purge_once w db =
    if w.fails 0
    then db
    else (let db' = delete_entries (is_overdue w.now) db in
        if w.fails 1
        then db'
        else record db' { sessions = delete_where (λ s. ltb s.expires_at w.now) db'.sessions })
