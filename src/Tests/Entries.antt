-- ===== src/Tests/Entries.antt =====
-- Entries, their history and the trash on the small database.
use passbubble.Prelude.{
  ℕ, ◌+◌, ◌≤◌, none, some, [], ◌∷◌, ◌≡◌, refl, ◌==◌, arith, is_some, if◌then◌else◌, find_where,
  select_where, delete_where, update_where, exists_where, insert_by, order_by, tally,
}
use passbubble.Store.{
  uuid, ◌>>=◌, has_user, has_entry, user_ref, folder_ref, contains, put_key, key_of,
}
use passbubble.Entries.Access.{entry_perm}
use passbubble.Entries.History.{
  version_of, version_of_entry, copy_keys, surplus, is_pruned, prune, snapshot_version,
  max_versions_per_entry,
}
use passbubble.Entries.History.Snapshot.{IsFresh, Recorded, kept_count}
use passbubble.Entries.Untouched.{Untouched}
use passbubble.Entries.Updating.{IsPatched, update_entry-Recorded}
use passbubble.Entries.{
  UpdateEntryRequest, update_entry, patch, decode_if, upsert_key, upsert_keys_tx, update_columns,
  update_rest, snapshot_if_replaced, delete_entry,
}
use passbubble.Trash.Reverting.{restored_key, restore_version-restores}
use passbubble.Trash.{restore_version, revert_entry, revert_keys}
use passbubble.ShareLinks.{Links}
use passbubble.Router.{route, update, delete}
use passbubble.Router.Atomic.{route-error_changes_nothing}
use passbubble.Router.Strangers.{may_revoke}
use passbubble.Router.Isolation.{may_write, route-Untouched}
use passbubble.Tests.Data.{world_at, owner, reader, entry_row, old_version, shared_db}

abbrev no_links : Links
no_links = record {
  derive_key = λ password salt. [];
  random_salt = none;
  random_token = none;
  parse_time = λ t. none;
}

abbrev new_payload : UpdateEntryRequest
new_payload = record {
  folder_id = none;
  name = "post";
  url = none;
  match_patterns = none;
  encrypted_data = "new";
  data_nonce = "n";
  entry_keys = record { user_id = uuid 2; encrypted_key = "k" } ∷ [];
}

route-error_changes_nothing_example :
    (route no_links (world_at 200 900) reader (delete 10) shared_db).0 ≡ shared_db
unfolding route delete_entry entry_perm contains exists_where
route-error_changes_nothing_example =
    route-error_changes_nothing no_links (world_at 200 900) reader shared_db (delete 10)
      (omega arith)

route-Untouched_example :
    Untouched 10 shared_db
      (route no_links (world_at 200 900) reader (update 10 (some new_payload)) shared_db).0
unfolding may_write may_revoke contains exists_where
route-Untouched_example =
    route-Untouched no_links (world_at 200 900) reader shared_db 10 refl refl
      (update 10 (some new_payload)) (omega arith)

shared_db-IsFresh : IsFresh (world_at 200 900) 902 10 shared_db
unfolding exists_where find_where select_where
shared_db-IsFresh = record { no_version = refl; no_keys = λ u. refl; older = omega arith }

update_entry-Recorded_example :
    Recorded
      (world_at 200 900)
      902
      1
      (entry_row 10 none)
      shared_db
      (update_entry (world_at 200 900) owner 10 (some new_payload) shared_db).0
    × IsPatched
        (world_at 200 900)
        10
        new_payload
        (entry_row 10 none)
        (update_entry (world_at 200 900) owner 10 (some new_payload) shared_db).0
    × (tally
          (version_of 10)
          (update_entry (world_at 200 900) owner 10 (some new_payload) shared_db).0.versions
        ≤ max_versions_per_entry)
unfolding update_entry entry_perm contains exists_where find_where select_where delete_where
    update_where insert_by order_by has_user has_entry user_ref folder_ref put_key version_of_entry
    copy_keys surplus is_pruned prune snapshot_version patch decode_if upsert_key upsert_keys_tx
    update_columns update_rest snapshot_if_replaced ◌>>=◌
update_entry-Recorded_example =
    update_entry-Recorded (world_at 200 900) owner 10 new_payload shared_db _ (entry_row 10 none)
      shared_db-IsFresh refl refl refl

restore_version-restores_example :
    (find_where
        (λ r. r.id == 10)
        (restore_version (world_at 200 900) owner 10 50 shared_db).0.entries
      ≡ some record (entry_row 10 none) {
        name = old_version.name;
        url = if is_some old_version.url then old_version.url else some "u";
        encrypted_data = old_version.encrypted_data;
        data_nonce = old_version.data_nonce;
        updated_at = 200;
      })
    × ((u : ℕ)
        → find_where
            (key_of 10 u)
            (restore_version (world_at 200 900) owner 10 50 shared_db).0.entry_keys
          ≡ restored_key
              (find_where (key_of 10 u) shared_db.entry_keys)
              (find_where (key_of 50 u) shared_db.version_keys))
    × Recorded
        (world_at 200 900)
        902
        1
        (entry_row 10 none)
        shared_db
        (restore_version (world_at 200 900) owner 10 50 shared_db).0
    × (tally (version_of 10) (restore_version (world_at 200 900) owner 10 50 shared_db).0.versions
        ≤ max_versions_per_entry + kept_count 10 (some 50) shared_db)
unfolding restore_version revert_entry revert_keys entry_perm contains exists_where find_where
    select_where delete_where update_where insert_by order_by has_user version_of_entry copy_keys
    surplus is_pruned prune snapshot_version ◌>>=◌
restore_version-restores_example =
    restore_version-restores (world_at 200 900) owner 10 50 shared_db _ (entry_row 10 none)
      old_version shared_db-IsFresh refl refl refl
