-- ===== src/Backups.antt =====
-- Backups of the vault: cli/pkg/backup/backup.go.
--
-- The vault is the records `Source` and `Target`, encoding/json is `encode` and `decode`, and the
-- file system is a function from paths with the failures that a write may meet. Progress reports,
-- and times but for the order of a list, are left out.
pub mod Writing
pub mod Restoring
use passbubble.Prelude.{
  ℕ, suc, ◌+◌, Bool, true, false, not, ◌&&◌, ◌||◌, Option, none, some, List, [], ◌∷◌, ◌++◌, ltb,
  leb, if◌then◌else◌, length, drop, is_some, order_by,
}
use passbubble.Texts.{Text, text, text_eq, is_blank, has_char, has_prefix}
use passbubble.Sealing.{EntryData, drop_stray_totp_secret}

-- Entry: data that is missing is `none`.
pub record BackedUp : Type 0 where
  pub name : Text
  pub entry_type : Text
  pub url : Text
  pub content : Option EntryData

-- File, but for the time.
pub record File : Type 0 where
  pub server : Text
  pub email : Text
  pub entries : List BackedUp

-- What ListEntries and GetEntry return: the ids with the names, and an entry by its id.
pub record Source : Type 0 where
  pub list_entries : Option (List (ℕ × Text))
  pub get_entry : ℕ → Option BackedUp

-- Where a write may fail: at CreateTemp, Write, Close or Rename; `encode` is json.MarshalIndent.
pub record Disk : Type 0 where
  pub create_temp_fails : Bool
  pub write_fails : Bool
  pub close_fails : Bool
  pub rename_fails : Bool

-- The files by their paths.
abbrev pub Files : Type 0
Files = Text → Option Text

-- What Create returns: an error, or the result with the ids of the skipped entries, which make an
-- IncompleteError where there are any.
pub data Created : Type 0 where
  failed : Created
  written : ℕ → ℕ → List ℕ → Created

-- A full entry with data.
abbrev pub has_data : Option BackedUp → Bool
has_data none = false
has_data (some e) = is_some e.content

-- One turn of the loop of Create: an entry that cannot be read, or has no data, is skipped.
unfoldable pub add_entry : ℕ → Option BackedUp → List BackedUp × List ℕ → List BackedUp × List ℕ
add_entry id none (entries, skipped) = (entries, id ∷ skipped)
add_entry id (some e) (entries, skipped) =
    if is_some e.content then (e ∷ entries, skipped) else (entries, id ∷ skipped)

-- The loop of Create: the entries read, and the ids of the others.
unfoldable pub read_entries : Source → List (ℕ × Text) → List BackedUp × List ℕ
read_entries src [] = ([], [])
read_entries src ((id, name) ∷ rest) = add_entry id (src.get_entry id) (read_entries src rest)

-- os.Rename of the temporary file
unfoldable pub put_file : Text → Text → Files → Files
put_file path content files p = if text_eq path p then some content else files p

-- writePrivate: the temporary file is removed where a step fails.
unfoldable pub write_private : Disk → Text → Text → Files → Files × Bool
write_private disk path content files =
    if disk.create_temp_fails || disk.write_fails || disk.close_fails || disk.rename_fails
    then (files, false)
    else (put_file path content files, true)

module _ (encode : File → Option Text) (decode : Text → Option File) where
  -- Create behind the list of entries.
  unfoldable pub create_from :
      Disk → Text → Text → Text → ℕ → List BackedUp → List ℕ → Files → Files × Created
  create_from disk path server email total entries skipped files =
      elim (encode record { server = server; email = email; entries = entries }) [
        | none ↦ (files, failed)
        | some content ↦
            let (files', done) = write_private disk path content files in
            if done then (files', written (length entries) total skipped) else (files', failed)
      ]

  -- Create, with what ListEntries returned.
  unfoldable pub create_found :
      Source → Disk → Text → Text → Text → Option (List (ℕ × Text)) → Files → Files × Created
  create_found src disk path server email none files = (files, failed)
  create_found src disk path server email (some listed) files =
      let (entries, skipped) = read_entries src listed in
      create_from disk path server email (length listed) entries skipped files

  -- Create
  unfoldable pub create : Source → Disk → Text → Text → Text → Files → Files × Created
  create src disk path server email files =
      create_found src disk path server email src.list_entries files

  -- Read
  unfoldable pub read : Files → Text → Option File
  read files path = elim (files path) [ none ↦ none | some content ↦ decode content ]

-- What CreateEntry of the target did with the entry of a number: true where it came through.
abbrev pub Target : Type 0
Target = ℕ → Bool

abbrev pub blank_data : EntryData
blank_data = record { username = ""; password = ""; totp_secret = ""; others = [] }

abbrev pub data_or_blank : Option EntryData → EntryData
data_or_blank none = blank_data
data_or_blank (some d) = d

-- An entry as Restore creates it.
unfoldable pub restored_entry : BackedUp → BackedUp
restored_entry e = record e { content = some (drop_stray_totp_secret (data_or_blank e.content)) }

-- What the target has created, and RestoreResult: how many, and the names of the others.
pub record Restored : Type 0 where
  pub created : List BackedUp
  pub restored : ℕ
  pub failed_names : List Text

-- The loop of Restore, from the entry of a number on.
unfoldable pub restore_from : Target → ℕ → List BackedUp → Restored
restore_from target n [] = record { created = []; restored = 0; failed_names = [] }
restore_from target n (e ∷ rest) =
    let later = restore_from target (suc n) rest in
    if target n
    then record later { created = restored_entry e ∷ later.created; restored = suc later.restored }
    else record later { failed_names = e.name ∷ later.failed_names }

-- Restore
unfoldable pub restore : Target → File → Restored
restore target file = restore_from target 0 file.entries

-- strings.HasSuffix and TrimSuffix
unfoldable pub trim_suffix : Text → Text → Text
trim_suffix suffix [] = []
trim_suffix suffix (c ∷ cs) =
    let rest = trim_suffix suffix cs in if text_eq suffix (c ∷ cs) then [] else c ∷ rest

unfoldable pub has_suffix : Text → Text → Bool
has_suffix suffix [] = is_blank suffix
has_suffix suffix (c ∷ cs) =
    let rest = has_suffix suffix cs in if text_eq suffix (c ∷ cs) then true else rest

-- strings.TrimPrefix
unfoldable pub trim_prefix : Text → Text → Text
trim_prefix [] t = t
trim_prefix (c ∷ prefix) [] = []
trim_prefix (c ∷ prefix) (d ∷ t) =
    if has_prefix (c ∷ prefix) (d ∷ t) then drop (length (c ∷ prefix)) (d ∷ t) else d ∷ t

-- NewPath, behind the default name: `mkdir` tells whether os.MkdirAll works.
unfoldable pub new_path : Bool → Files → Text → Text → Option Text
new_path mkdir files dir name =
    let bare = trim_prefix (text "backup-") (trim_suffix (text ".json") name) in
    let path = dir ++ text "/backup-" ++ bare ++ text ".json" in
    if is_blank bare || has_char 47 bare || has_char 92 bare || not mkdir
    then none
    else elim (files path) [ none ↦ some path | some content ↦ none ]

-- A file of a directory.
pub record DirEntry : Type 0 where
  pub name : Text
  pub is_dir : Bool
  pub mod_time : Option ℕ

unfoldable pub is_backup : DirEntry → Bool
is_backup f = not f.is_dir && has_prefix (text "backup-") f.name && has_suffix (text ".json") f.name

-- The backups among the files of a directory, with their times; a file that Info fails on is passed
-- over.
unfoldable pub backups_of : List DirEntry → List (Text × ℕ)
backups_of [] = []
backups_of (f ∷ fs) =
    let rest = backups_of fs in
    if is_backup f then elim f.mod_time [ none ↦ rest | some t ↦ (f.name, t) ∷ rest ] else rest

-- List: newest first; a directory that does not exist holds none.
unfoldable pub list : Option (List DirEntry) → List (Text × ℕ)
list none = []
list (some files) = order_by (λ a b. leb (b.1) (a.1)) (backups_of files)
