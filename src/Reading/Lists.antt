-- ===== src/Reading/Lists.antt =====
-- The handlers of backend/internal/api/handlers that list or search: ListFolders of folders.go,
-- ListTrash, ListVersions and GetVersion of trash_versions.go, and SearchEntries of entries.go. The
-- collation of the database and ILIKE are parameters. rows.Err() is looked at nowhere, so that a
-- list ends where its reading breaks off.
use passbubble.Prelude.{
  ℕ, String, Bool, false, not, ◌&&◌, ◌||◌, Option, none, some, List, [], ◌==◌, leb, if◌then◌else◌,
  is_none, is_some, coalesce, take, map, select_where, order_by, delivered, find_where,
  exists_where,
}
use passbubble.Store.{
  World, Db, Claims, Response, error, reply, EntryRow, FolderRow, VersionRow, Bytes, of_user,
  key_of,
}
use passbubble.Entries.Access.{has_access, require_entry_access}
use passbubble.Reading.{scanned, key_text, stands_before}
use passbubble.Texts.{Text, trim, is_blank}

-- A folder that is not the caller's is shown where a permission names it.
unfoldable pub is_folder_visible : Db → ℕ → FolderRow → Bool
is_folder_visible db user f =
    f.owner_id == user || exists_where (of_user f.id user) db.folder_permissions

unfoldable pub visible_folders : (String → String → Bool) → Db → ℕ → List FolderRow
visible_folders collation db user =
    order_by (λ (a b : FolderRow). collation a.name b.name)
      (select_where (is_folder_visible db user) db.folders)

abbrev pub is_child_of : ℕ → FolderRow → Bool
is_child_of id f = elim f.parent_id [ none ↦ false | some p ↦ p == id ]

-- The tree that ListFolders builds and answers with: its roots, and the Children of each folder. A
-- folder whose parent is not shown is no root and no child.
pub record FolderTree : Type 0 where
  pub roots : List FolderRow
  pub children : FolderRow → List FolderRow

unfoldable pub build_tree : List FolderRow → FolderTree
build_tree all = record {
  roots = select_where (λ f. is_none f.parent_id) all;
  children = λ f. select_where (is_child_of f.id) all;
}

-- ListFolders
unfoldable pub list_folders : (String → String → Bool) → World → Claims → Db → Response FolderTree
list_folders collation w caller db =
    if w.fails 0
    then error 500 "failed to list folders"
    else reply 200
        (build_tree (delivered (w.breaks 0) (visible_folders collation db caller.user_id)))

-- ListTrash
unfoldable pub list_trash : World → Claims → Db → Response (List EntryRow)
list_trash w caller db =
    if w.fails 0
    then error 500 "failed to list trash"
    else reply 200 (
        scanned w 0 (
          order_by (λ (a b : EntryRow). leb (coalesce b.deleted_at 0) (coalesce a.deleted_at 0))
            (select_where (λ e. e.owner_id == caller.user_id && is_some e.deleted_at) db.entries)))

-- SearchEntries: `ilike` tells whether a row has the text in its name, URL or match patterns.
unfoldable pub search_entries :
    (String → String → Bool)
    → (Text → EntryRow → Bool)
    → World
    → Claims
    → Text
    → Db
    → Response (List EntryRow)
search_entries collation ilike w caller query db =
    if is_blank (trim query)
    then reply 200 []
    else if w.fails 0
    then error 500 "search failed"
    else reply 200 (
        scanned w 0 (
          take 50 (
            order_by (stands_before collation) (
              select_where
                (λ e.
                  has_access db caller.user_id e && is_none e.deleted_at && ilike (trim query) e)
                db.entries))))

-- EntryVersionResponse, as ListVersions answers it: what is known of a version but for its payload.
pub record VersionSummary : Type 0 where
  pub id : ℕ
  pub entry_id : ℕ
  pub name : String
  pub url : String
  pub edited_by : Option ℕ
  pub created_at : ℕ

abbrev pub summary : VersionRow → VersionSummary
summary v = record {
  id = v.id;
  entry_id = v.entry_id;
  name = v.name;
  url = coalesce v.url "";
  edited_by = v.edited_by;
  created_at = v.created_at;
}

-- ListVersions
unfoldable pub list_versions : World → Claims → ℕ → Db → Response (List VersionSummary)
list_versions w caller entry db =
    if not (require_entry_access w 0 db entry caller.user_id)
    then error 404 "entry not found"
    else if w.fails 1
    then error 500 "failed to list versions"
    else reply 200 (
        map summary (
          delivered (w.breaks 1) (
            order_by (λ (a b : VersionRow). leb b.created_at a.created_at)
              (select_where (λ v. v.entry_id == entry) db.versions))))

-- EntryVersionResponse, as GetVersion answers it.
pub record EntryVersionResponse : Type 0 where
  pub version : VersionSummary
  pub encrypted_data : String
  pub data_nonce : String
  pub entry_key : Option String

abbrev pub version_key : Db → ℕ → ℕ → Option Bytes
version_key db user version = elim (find_where (key_of version user) db.version_keys) [
  | none ↦ none
  | some k ↦ some k.encrypted_key
]

-- GetVersion: the query for the key is call 2, its error dropped.
unfoldable pub get_version : World → Claims → ℕ → ℕ → Db → Response EntryVersionResponse
get_version w caller entry version db =
    if not (require_entry_access w 0 db entry caller.user_id)
    then error 404 "entry not found"
    else if w.fails 1
    then error 404 "version not found"
    else elim (find_where (λ v. v.id == version && v.entry_id == entry) db.versions) [
      | none ↦ error 404 "version not found"
      | some v ↦ reply 200 record {
        version = summary v;
        encrypted_data = w.encode64 v.encrypted_data;
        data_nonce = w.encode64 v.data_nonce;
        entry_key = key_text w (if w.fails 2 then none else version_key db caller.user_id version);
      }
    ]
