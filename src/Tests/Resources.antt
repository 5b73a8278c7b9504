-- ===== src/Tests/Resources.antt =====
-- Witnesses for share links and folders.
use passbubble.Prelude.{
  ℕ, ◌-◌, ◌≤◌, Option, none, some, List, [], ◌∷◌, ◌≡◌, refl, arith, find_where, exists_where,
}
use passbubble.Store.{Db, uuid, respelled, error, reply, FolderRow, ShareLinkRow, has_folder}
use passbubble.ShareLinks.{Links, link_by_token, get_share_link, revoke_share_link}
use passbubble.ShareLinks.Views.{times_shown, times_shown-bound, revoke-gone}
use passbubble.Folders.{CreateFolderRequest, update_folder}
use passbubble.Folders.Reach.{IsForest, link}
use passbubble.Folders.Moving.{update_folder-IsForest, update_folder-self_parent}
use passbubble.Tests.Data.{world_at, owner, shared_db}

abbrev links : Links
links = record {
  derive_key = λ password salt. 1 ∷ [];
  random_salt = some (2 ∷ []);
  random_token = some "fresh";
  parse_time = λ text. some 1000;
}

abbrev link_row : ShareLinkRow
link_row = record {
  id = 60;
  token = "open";
  owner_id = 1;
  entry_id = some 10;
  folder_id = none;
  encrypted_payload = 7 ∷ [];
  payload_nonce = 8 ∷ [];
  password_salt = none;
  password_hash = none;
  max_views = some 2;
  view_count = 1;
  expires_at = 1000;
  revoked_at = none;
}

abbrev linked_db : Db
linked_db = record shared_db { share_links = link_row ∷ [] }

times_shown-bound_example :
    times_shown links "open" ((world_at 200 900, "") ∷ (world_at 201 910, "") ∷ []) linked_db
    ≤ 2 - 1
unfolding link_by_token find_where
times_shown-bound_example =
    times_shown-bound links "open" ((world_at 200 900, "") ∷ (world_at 201 910, "") ∷ []) linked_db
      link_row 2 refl refl (refl, (refl, tt))

revoke-gone_example :
    (get_share_link links
      (world_at 300 910)
      "open"
      ""
      (revoke_share_link (world_at 200 900) owner 60 linked_db).0).1
    ≡ error 410 "share link expired or revoked"
unfolding link_by_token find_where
revoke-gone_example =
    revoke-gone links (world_at 200 900) (world_at 300 910) owner "open" "" linked_db link_row refl
      refl refl refl

abbrev folder_row : ℕ → Option ℕ → FolderRow
folder_row id parent = record { id = id; name = "folder"; parent_id = parent; owner_id = 1 }

-- 20 above 21, and 22 beside them.
abbrev tree : List FolderRow
tree = folder_row 20 none ∷ folder_row 21 (some 20) ∷ folder_row 22 none ∷ []

abbrev tree_db : Db
tree_db = record shared_db { folders = tree }

tree-IsForest : IsForest tree
unfolding link exists_where
tree-IsForest = record { rank = λ x. x; climbs = λ a b l. ground arith }

abbrev moving : CreateFolderRequest
moving = record { name = "moved"; parent_id = some (uuid 22) }

update_folder-IsForest_example :
    IsForest (update_folder (world_at 200 900) owner 20 (some moving) tree_db).0.folders
update_folder-IsForest_example =
    update_folder-IsForest (world_at 200 900) owner 20 moving tree_db (λ e. cc) tree-IsForest

abbrev self_moving : CreateFolderRequest
self_moving = record { name = "moved"; parent_id = some (respelled 20) }

update_folder-self_parent_example :
    ((update_folder (world_at 200 900) owner 20 (some self_moving) tree_db).1 ≡ reply 204 tt)
    × (¬ IsForest (update_folder (world_at 200 900) owner 20 (some self_moving) tree_db).0.folders)
unfolding exists_where has_folder
update_folder-self_parent_example =
    update_folder-self_parent (world_at 200 900) owner 20 self_moving tree_db refl tree-IsForest
      refl refl refl refl
