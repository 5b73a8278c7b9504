-- ===== src/Tests/Removals.antt =====
-- Witnesses for the trash, for revoking and for deleting folders.
use passbubble.Prelude.{
  delivered, ℕ, false, Option, none, some, List, [], ◌∷◌, ◌≡◌, refl, arith, find_where,
  exists_where, update_where, delete_where, select_where,
}
use passbubble.Store.{Db, FolderRow, uuid, contains, user_ref, has_user, has_entry, put_key, ◌>>=◌}
use passbubble.Entries.{delete_entry, share_entry, ShareEntryRequest, upsert_key, grant}
use passbubble.Entries.SelfSharing.{share_entry_self}
use passbubble.Entries.Access.{entry_perm}
use passbubble.Entries.Untouched.{Untouched}
use passbubble.Trash.{gone, purge_once, restore_entry, delete_entries, lost}
use passbubble.Trash.Retention.{delete-restore}
use passbubble.Shares.{revoke_entry_share, revocable, entry_owner, drop_key}
use passbubble.Shares.Revoking.{Revoked, revoke_entry_share-Revoked}
use passbubble.Folders.{delete_folder, doomed, descend, member, delete_tree, delete_folders}
use passbubble.Folders.Reach.{IsForest, link}
use passbubble.Folders.Deleting.{Emptied, delete_folder-Emptied}
use passbubble.Tests.Data.{world_at, owner, entry_row, shared_db}

delete-restore_example :
    Untouched 10 shared_db
      (restore_entry
        (world_at 3000 920)
        owner
        10
        (purge_once (world_at 2000 910) (delete_entry (world_at 1000 900) owner 10 shared_db).0)).0
unfolding gone delete_entry restore_entry purge_once delete_entries lost entry_perm contains
    exists_where update_where delete_where
delete-restore_example =
    delete-restore 10 (world_at 1000 900) (world_at 2000 910) (world_at 3000 920) owner owner
      shared_db _ _ refl refl (omega arith) refl

revoke_entry_share-Revoked_example :
    Revoked 10 2 shared_db (revoke_entry_share (world_at 200 900) owner 10 2 shared_db).0
unfolding revoke_entry_share revocable entry_owner drop_key exists_where find_where ◌>>=◌
revoke_entry_share-Revoked_example =
    revoke_entry_share-Revoked (world_at 200 900) owner 10 2 shared_db _ (entry_row 10 none) refl
      refl refl refl refl

abbrev folder_row : ℕ → Option ℕ → FolderRow
folder_row id parent = record { id = id; name = "folder"; parent_id = parent; owner_id = 1 }

abbrev nested : List FolderRow
nested = folder_row 20 none ∷ folder_row 21 (some 20) ∷ folder_row 22 none ∷ []

abbrev nested_db : Db
nested_db = record shared_db { folders = nested }

nested-IsForest : IsForest nested
unfolding link exists_where
nested-IsForest = record { rank = λ x. x; climbs = λ a b l. ground arith }

delete_folder-Emptied_example :
    Emptied 20 nested_db (delete_folder (world_at 200 900) owner 20 nested_db).0
unfolding delete_folder delivered doomed descend member delete_tree delete_folders delete_entries
    exists_where select_where delete_where ◌>>=◌
delete_folder-Emptied_example =
    delete_folder-Emptied (world_at 200 900) owner 20 nested_db _ nested-IsForest refl refl refl

abbrev self_share : ShareEntryRequest
self_share = record { user_id = uuid 1; permission = ""; encrypted_key = "k" }

share_entry_self_example :
    entry_perm
      (world_at 300 910)
      0
      (share_entry (world_at 200 900) owner 10 (some self_share) shared_db).0
      10
      1
      ("owner" ∷ [])
    ≡ false
unfolding share_entry entry_perm contains upsert_key grant user_ref has_user has_entry put_key
    exists_where update_where ◌>>=◌
share_entry_self_example =
    share_entry_self (world_at 200 900) (world_at 300 910) 0 owner 10 self_share shared_db _ refl
      refl refl refl
