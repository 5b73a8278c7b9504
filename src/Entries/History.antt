-- ===== src/Entries/History.antt =====
-- `snapshotVersionTx` of backend/internal/api/handlers/trash_versions.go: the statements that keep
-- an entry's history, as part of the caller's transaction.
pub mod Pruning
pub mod Snapshot
pub mod Kept
use passbubble.Prelude.{
  ℕ, ◌+◌, Bool, false, not, ◌&&◌, Option, none, some, List, [], ◌∷◌, ◌++◌, map, ◌==◌, leb,
  select_where, delete_where, exists_where, find_where, order_by, drop,
}
use passbubble.Store.{World, Db, EntryRow, VersionRow, KeyRow, ◌>>=◌, ◌>>◌, call, require, has_user}

abbrev pub max_versions_per_entry : ℕ
max_versions_per_entry = 20

abbrev pub version_of : ℕ → VersionRow → Bool
version_of entry v = v.entry_id == entry

-- ORDER BY created_at DESC
abbrev pub newer : VersionRow → VersionRow → Bool
newer a b = leb b.created_at a.created_at

-- The version that a row of `entries` becomes.
unfoldable pub version_of_entry : World → ℕ → ℕ → EntryRow → VersionRow
version_of_entry w id editor e = record {
  id = id;
  entry_id = e.id;
  name = e.name;
  url = e.url;
  encrypted_data = e.encrypted_data;
  data_nonce = e.data_nonce;
  edited_by = some editor;
  created_at = w.now;
}

-- INSERT INTO entry_version_keys SELECT version, user_id, encrypted_key FROM entry_keys WHERE entry_id
unfoldable pub copy_keys : ℕ → ℕ → List KeyRow → List KeyRow
copy_keys version entry keys =
    map (λ (k : KeyRow). record k { holder = version }) (select_where (λ k. k.holder == entry) keys)

-- The versions of an entry behind the newest `max_versions_per_entry`.
unfoldable pub surplus : ℕ → List VersionRow → List VersionRow
surplus entry versions =
    drop max_versions_per_entry (order_by newer (select_where (version_of entry) versions))

abbrev pub is_kept : Option ℕ → ℕ → Bool
is_kept none id = false
is_kept (some k) id = k == id

-- DELETE FROM entry_versions WHERE id <> keep AND id IN (...); the keys go by ON DELETE CASCADE.
unfoldable pub is_pruned : Option ℕ → List VersionRow → ℕ → Bool
is_pruned keep doomed id = not (is_kept keep id) && exists_where (λ d. d.id == id) doomed

unfoldable pub prune : ℕ → Option ℕ → Db → Db
prune entry keep db =
    let doomed = surplus entry db.versions in
    record db {
      versions = delete_where (λ v. is_pruned keep doomed v.id) db.versions;
      version_keys = delete_where (λ k. is_pruned keep doomed k.holder) db.version_keys;
    }

-- The snapshot takes the calls `n` to `n + 2`; the id is the one that the database draws.
unfoldable pub snapshot_version : World → ℕ → ℕ → ℕ → Option ℕ → Db → Option Db
snapshot_version w n entry editor keep db = do
  call w n
  e ← find_where (λ r. r.id == entry) db.entries
  require (has_user db editor)
  let id = w.uuid n
  call w (n + 1)
  call w (n + 2)
  some (
      prune entry keep (record db {
        versions = db.versions ++ version_of_entry w id editor e ∷ [];
        version_keys = db.version_keys ++ copy_keys id entry db.entry_keys;
      }))
