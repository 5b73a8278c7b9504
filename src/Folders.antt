-- ===== src/Folders.antt =====
-- Folders, of backend/internal/api/handlers/folders.go. The recursive queries run on fuel: one step
-- per folder of the table, which is enough where the folders form a forest.
pub mod Reach
pub mod Moving
pub mod Deleting
use passbubble.Prelude.{
  ℕ, zero, suc, String, Bool, true, false, not, ◌&&◌, ◌||◌, Option, none, some, List, [], ◌∷◌, ◌++◌,
  ◌==◌, str_eq, if◌then◌else◌, length, select_where, delivered, is_some, update_where, delete_where,
  exists_where,
}
use passbubble.Store.{
  World, Db, Claims, IdText, uuid, read_uuid, is_id_text_blank, Response, error, reply, FolderRow,
  ◌>>=◌, ◌>>◌, call, require, has_user, has_folder, user_ref, folder_ref, put_permission, or_keep,
  or_fail,
}
use passbubble.Entries.{share_permission}
use passbubble.Trash.{delete_entries}

pub record CreateFolderRequest : Type 0 where
  pub name : String
  pub parent_id : Option IdText

pub record ShareFolderRequest : Type 0 where
  pub user_id : IdText
  pub permission : String

-- CreateFolder: INSERT INTO folders
unfoldable pub insert_folder : World → ℕ → Claims → CreateFolderRequest → Db → Option Db
insert_folder w n caller req db = do
  call w n
  parent ← folder_ref db req.parent_id
  require (has_user db caller.user_id)
  some (record db {
    folders =
        db.folders
        ++ record { id = w.uuid 0; name = req.name; parent_id = parent; owner_id = caller.user_id }
          ∷ [];
  })

-- CreateFolder
unfoldable pub create_folder : World → Claims → Option CreateFolderRequest → Db → Db × Response ℕ
create_folder w caller none db = (db, error 400 "name required")
create_folder w caller (some req) db =
    if str_eq req.name ""
    then (db, error 400 "name required")
    else or_fail db (error 500 "failed to create folder") (insert_folder w 0 caller req db)
        λ db'. (db', reply 201 (w.uuid 0))

abbrev pub is_child_of : ℕ → FolderRow → Bool
is_child_of id f = elim f.parent_id [ none ↦ false | some p ↦ p == id ]

-- One of the ids is the one named.
unfoldable pub member : ℕ → List ℕ → Bool
member id [] = false
member id (x ∷ xs) = let rest = member id xs in if x == id then true else rest

abbrev pub has_parent_in : List ℕ → FolderRow → Bool
has_parent_in ids f = elim f.parent_id [ none ↦ false | some p ↦ member p ids ]

abbrev pub folder_ids : List FolderRow → List ℕ
folder_ids [] = []
folder_ids (f ∷ fs) = f.id ∷ folder_ids fs

-- WITH RECURSIVE: the ids of a round, then those of the folders whose parent is among them.
unfoldable pub descend : ℕ → List FolderRow → List ℕ → List ℕ
descend zero folders ids = []
descend (suc fuel) folders ids =
    ids ++ descend fuel folders (folder_ids (select_where (has_parent_in ids) folders))

-- The ids below a folder, the folder itself left out.
unfoldable pub descendants : List FolderRow → ℕ → List ℕ
descendants folders id =
    descend (length folders) folders (folder_ids (select_where (is_child_of id) folders))

-- The columns that UPDATE folders SET ... assigns.
unfoldable pub re_parent : String → Option ℕ → FolderRow → FolderRow
re_parent name parent f = record f { name = name; parent_id = parent }

abbrev pub own_folder : ℕ → ℕ → FolderRow → Bool
own_folder id user f = f.id == id && f.owner_id == user

-- NULL, or the UUID that the database reads.
abbrev pub parent_of : Option IdText → Option (Option ℕ)
parent_of none = some none
parent_of (some text) = elim (read_uuid text) [ none ↦ none | some f ↦ some (some f) ]

abbrev pub parent_known : Db → Option ℕ → Bool
parent_known db none = true
parent_known db (some f) = has_folder db f

-- UPDATE folders SET ... WHERE id=$1 AND owner_id=$4: the foreign key is checked on a row written.
unfoldable pub move_folder : World → ℕ → Claims → ℕ → CreateFolderRequest → Db → Option Db
move_folder w n caller id req db = do
  call w n
  parent ← parent_of req.parent_id
  require (not (exists_where (own_folder id caller.user_id) db.folders) || parent_known db parent)
  some (record db {
    folders = update_where (own_folder id caller.user_id) (re_parent req.name parent) db.folders;
  })

-- The guard against cycles: the parent's text is compared with that of the path, and its UUID is
-- searched below the folder.
unfoldable pub check_parent : World → ℕ → Db → ℕ → IdText → Option (Response (Unit {0}))
check_parent w n db id text =
    if elim text [ uuid p ↦ p == id | _ ↦ false ]
    then some (error 400 "cannot move folder into itself")
    else if w.fails n
    then some (error 500 "failed to update folder")
    else elim (read_uuid text) [
      | none ↦ some (error 500 "failed to update folder")
      | some p ↦
          if member p (descendants db.folders id)
          then some (error 400 "cannot move folder into its own subfolder")
          else none
    ]

unfoldable pub check_request :
    World → ℕ → Db → ℕ → CreateFolderRequest → Option (Response (Unit {0}))
check_request w n db id req = elim req.parent_id [
  | none ↦ none
  | some text ↦ check_parent w n db id text
]

-- UpdateFolder renames and moves a folder.
unfoldable pub update_folder :
    World → Claims → ℕ → Option CreateFolderRequest → Db → Db × Response (Unit {0})
update_folder w caller id none db = (db, error 400 "invalid request")
update_folder w caller id (some req) db = elim (check_request w 0 db id req) [
  | some failed ↦ (db, failed)
  | none ↦
      or_fail db (error 500 "failed to update folder") (move_folder w 1 caller id req db)
        λ db'. (db', reply 204 tt)
]

-- DeleteFolder: the folder, where the caller owns it, and all folders below it.
unfoldable pub doomed : List FolderRow → ℕ → ℕ → List ℕ
doomed folders id user =
    descend (suc (length folders)) folders (folder_ids (select_where (own_folder id user) folders))

abbrev pub in_folders : List ℕ → Option ℕ → Bool
in_folders ids none = false
in_folders ids (some f) = member f ids

-- DELETE FROM folders WHERE id = ANY($1), with what ON DELETE CASCADE takes along. A folder that
-- stays behind may not name one that goes.
unfoldable pub delete_folders : List ℕ → Db → Option Db
delete_folders ids db = do
  require (not (exists_where (λ f. has_parent_in ids f && not (member f.id ids)) db.folders))
  require (not (exists_where (λ e. in_folders ids e.folder_id) db.entries))
  some (record db {
    folders = delete_where (λ f. member f.id ids) db.folders;
    folder_permissions = delete_where (λ r. member r.resource ids) db.folder_permissions;
    share_links = delete_where (λ l. in_folders ids l.folder_id) db.share_links;
  })

-- The two statements and the commit of DeleteFolder, calls 2 to 4.
unfoldable pub delete_tree : World → List ℕ → Db → Option Db
delete_tree w ids db = do
  call w 2
  call w 3
  db' ← delete_folders ids (delete_entries (λ e. in_folders ids e.folder_id) db)
  call w 4
  some db'

-- DeleteFolder. The loop over the ids does not look at rows.Err(); where their reading breaks off, the
-- transaction is aborted and its next statement fails.
unfoldable pub delete_folder : World → Claims → ℕ → Db → Db × Response (Unit {0})
delete_folder w caller id db =
    if w.fails 0 || w.fails 1
    then (db, error 500 "failed to delete folder")
    else elim (delivered (w.breaks 1) (doomed db.folders id caller.user_id)) [
      | [] ↦ (db, reply 204 tt)
      | x ∷ xs ↦
          if is_some (w.breaks 1)
          then (db, error 500 "failed to delete folder")
          else or_fail db (error 500 "failed to delete folder") (delete_tree w (x ∷ xs) db)
              λ db'. (db', reply 204 tt)
    ]

-- INSERT INTO folder_permissions ... ON CONFLICT DO UPDATE, its error dropped.
unfoldable pub grant_folder : World → ℕ → ℕ → ShareFolderRequest → ℕ → Db → Db
grant_folder w n folder req granter db = or_keep db do
  call w n
  u ← user_ref db req.user_id
  require (has_folder db folder && has_user db granter)
  some (record db {
    folder_permissions =
        put_permission folder u (share_permission req.permission) (some granter)
          db.folder_permissions;
  })

-- ShareFolder
unfoldable pub share_folder :
    World → Claims → ℕ → Option ShareFolderRequest → Db → Db × Response (Unit {0})
share_folder w caller id none db = (db, error 400 "user_id required")
share_folder w caller id (some req) db =
    if is_id_text_blank req.user_id
    then (db, error 400 "user_id required")
    else if w.fails 0 || not (exists_where (own_folder id caller.user_id) db.folders)
    then (db, error 403 "only owner can share folder")
    else (grant_folder w 1 id req caller.user_id db, reply 204 tt)
