-- ===== src/Importing/Loop.antt =====
-- The loop of the import over the records of the file, with the folders that it creates on the way:
-- importCmd, overwriteEntry and resolveFolderID of cli/internal/cli/importexport.go.
--
-- The vault is a state with the operations `VaultOps`; the ledger of jobs and what is printed are
-- left out.
use passbubble.Importing.{
  Content, FileRecord, Existing, username, content_of, drop_stray_secret, find_duplicates,
  merge_imported_data, normalize_imported_tags,
}
use passbubble.Prelude.{
  ℕ, suc, ◌+◌, Bool, false, not, ◌&&◌, Option, none, some, List, [], ◌∷◌, ◌++◌, ltb, ◌==◌,
  if◌then◌else◌, map,
}
use passbubble.Texts.{Text, text_eq, text, is_blank, join}

-- What CreateEntry is given.
pub record EntryToCreate : Type 0 where
  pub name : Text
  pub entry_type : Text
  pub url : Text
  pub content : Content
  pub folder_id : Option Text
  pub created_at : Text
  pub updated_at : Text
  pub match_patterns : List Text

-- The operations of vault.Vault that the loop calls: true, or an id, where they come through.
-- `update_entry` and `replace_entry` take the id, the name, the URL and the data.
pub record VaultOps (S : Type 0) : Type 0 where
  pub get_entry : Text → S → Option Content
  pub create_entry : EntryToCreate → S → S × Bool
  pub update_entry : Text → Text → Text → Content → S → S × Bool
  pub replace_entry : Text → Text → Text → Content → S → S × Bool
  pub create_folder : Text → Option Text → S → S × Option Text

-- vault.Folder with its children.
mutual
  pub data Folder : Type 0 where
    folder : Text → Text → Folders → Folder

  pub data Folders : Type 0 where
    no_folders : Folders
    add_folder : Folder → Folders → Folders

-- The cache of folder ids by their keys.
abbrev pub Cache : Type 0
Cache = Text → Option Text

unfoldable pub put : Text → Text → Cache → Cache
put key id cache k = if text_eq key k then some id else cache k

-- folderKey
unfoldable pub folder_key : List Text → Text
folder_key path = join (0 ∷ []) path

-- walk of buildFolderCache, for one folder and for a list of them.
unfoldable mutual
  pub walk_folder : List Text → Folder → Cache → Cache
  walk_folder prefix (folder id name children) cache =
      walk (prefix ++ name ∷ []) children (put (folder_key (prefix ++ name ∷ [])) id cache)

  pub walk : List Text → Folders → Cache → Cache
  walk prefix no_folders cache = cache
  walk prefix (add_folder f fs) cache = walk prefix fs (walk_folder prefix f cache)

-- buildFolderCache
unfoldable pub build_folder_cache : Folders → Cache
build_folder_cache folders = walk [] folders (λ key. none)

-- The numbers of an import.
pub record Counts : Type 0 where
  pub created : ℕ
  pub updated : ℕ
  pub skipped : ℕ
  pub failed : ℕ

abbrev pub no_counts : Counts
no_counts = record { created = 0; updated = 0; skipped = 0; failed = 0 }

-- The flags of the command.
pub record ImportFlags : Type 0 where
  pub on_duplicate : Text
  pub replace_all : Bool

-- checkReplaceAll
unfoldable pub check_replace_all : ImportFlags → Bool
check_replace_all flags =
    not (flags.replace_all && not (text_eq flags.on_duplicate (text "overwrite")))

-- What an import is, for the ledger, in the end.
unfoldable pub final_status : Counts → Text
final_status c =
    if ltb 0 c.failed && (c.created + c.updated == 0) then text "failed" else text "completed"

module _ {S : Type 0} (ops : VaultOps S) (upper : Text → Text)
    (equal_fold : Text → Text → Bool) where
  -- The loop of resolveFolderID, behind the folders `above` with the id of the last of them: an
  -- error is `none`.
  unfoldable pub resolve_from :
      List Text → Option Text → List Text → S × Cache → (S × Cache) × Option (Option Text)
  resolve_from above parent [] st = (st, some parent)
  resolve_from above parent (name ∷ below) (s, cache) =
      let key = folder_key (above ++ name ∷ []) in
      elim (cache key) [
        | some id ↦ resolve_from (above ++ name ∷ []) (some id) below (s, cache)
        | none ↦
            let (s', made) = ops.create_folder name parent s in
            elim made [
              | none ↦ ((s', cache), none)
              | some id ↦ resolve_from (above ++ name ∷ []) (some id) below (s', put key id cache)
            ]
      ]

  -- resolveFolderID
  unfoldable pub resolve_folder_id : List Text → S × Cache → (S × Cache) × Option (Option Text)
  resolve_folder_id path st = resolve_from [] none path st

  -- overwriteEntry
  unfoldable pub overwrite_entry : Bool → Text → FileRecord → S → S × Bool
  overwrite_entry replace_all id rec s =
      if replace_all
      then ops.replace_entry id rec.name rec.url (content_of rec) s
      else elim (ops.get_entry id s) [
        | none ↦ (s, false)
        | some current ↦
            ops.update_entry id rec.name rec.url
              (merge_imported_data upper current (content_of rec)) s
      ]

  -- The end of a turn that creates an entry: folder trouble leaves it at the top.
  unfoldable pub create_in :
      FileRecord → (S × Cache) × Option (Option Text) → Counts → (S × Cache) × Counts
  create_in rec ((s, cache), place) c =
      let (s', done) =
        ops.create_entry
          record {
            name = rec.name;
            entry_type = if is_blank rec.entry_type then text "password" else rec.entry_type;
            url = rec.url;
            content = content_of rec;
            folder_id = elim place [ none ↦ none | some id ↦ id ];
            created_at = rec.created_at;
            updated_at = rec.updated_at;
            match_patterns = rec.match_patterns;
          }
          s in
      (
        (s', cache),
        if done then record c { created = suc c.created } else record c { failed = suc c.failed },
      )

  -- The end of a turn that overwrites an entry.
  unfoldable pub count_overwritten : Cache → S × Bool → Counts → (S × Cache) × Counts
  count_overwritten cache (s, done) c = (
    (s, cache),
    if done then record c { updated = suc c.updated } else record c { failed = suc c.failed },
  )

  -- One turn of the loop, with the ids of the duplicates.
  unfoldable pub import_among :
      ImportFlags → FileRecord → List Text → S × Cache → Counts → (S × Cache) × Counts
  import_among flags rec [] st c = create_in rec (resolve_folder_id rec.folder_path st) c
  import_among flags rec (id ∷ []) (s, cache) c =
      if text_eq flags.on_duplicate (text "overwrite")
      then count_overwritten cache (overwrite_entry flags.replace_all id rec s) c
      else ((s, cache), record c { skipped = suc c.skipped })
  import_among flags rec (id ∷ other ∷ ids) st c =
      if text_eq flags.on_duplicate (text "overwrite")
      then (st, record c { failed = suc c.failed })
      else (st, record c { skipped = suc c.skipped })

  -- One turn of the loop.
  unfoldable pub import_record :
      ImportFlags → List Existing → FileRecord → S × Cache → Counts → (S × Cache) × Counts
  import_record flags existing rec st c =
      import_among flags rec
        (find_duplicates equal_fold rec.name (rec.fields username) rec.entry_type existing) st c

  -- The loop.
  unfoldable pub import_records :
      ImportFlags → List Existing → List FileRecord → S × Cache → Counts → (S × Cache) × Counts
  import_records flags existing [] st c = (st, c)
  import_records flags existing (rec ∷ recs) st c =
      let (st', c') = import_record flags existing rec st c in
      import_records flags existing recs st' c'

  -- importCmd behind the parser, with what ListAllDecrypted and ListFolders return: an error is
  -- `none`.
  unfoldable pub import_file :
      (ℕ → ℕ)
      → ImportFlags
      → List FileRecord
      → Option (List Existing)
      → Option Folders
      → S
      → S × Option Counts
  import_file lower flags [] existing folders s = (s, some no_counts)
  import_file lower flags (rec ∷ recs) (some existing) (some folders) s =
      let ready = map (λ r. drop_stray_secret (normalize_imported_tags lower r)) (rec ∷ recs) in
      let (st, c) = import_records flags existing ready (s, build_folder_cache folders) no_counts in
      (st.0, some c)
  import_file lower flags (rec ∷ recs) (some existing) none s = (s, none)
  import_file lower flags (rec ∷ recs) none folders s = (s, none)
