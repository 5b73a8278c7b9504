-- ===== src/Folders/Deleting.antt =====
-- What DeleteFolder of backend/internal/api/handlers/folders.go takes along.
use passbubble.Prelude.{
  ℕ, suc, Bool, true, false, ◌&&◌, none, some, List, [], ◌∷◌, ◌==◌, ◌≡◌, refl, arith, ◌∙◌, ap,
  length, select_where, delete_where, find_where, exists_where, find-delete, find-delete_self,
  delivered, is_some, Option, if◌then◌else◌, Bool-cases, Option-cases, inl, inr, subst,
}
use passbubble.Store.{
  World, Db, Claims, EntryRow, FolderRow, Response, error, reply, or_fail, Returns, Returns-bind,
  Returns-some,
}
use passbubble.Trash.{delete_entries}
use passbubble.Folders.{
  member, folder_ids, own_folder, doomed, in_folders, delete_folders, delete_tree, delete_folder,
}
use passbubble.Folders.Reach.{Chain, IsForest, found, reached, above-length, here}

own_root :
    (id user : ℕ) (folders : List FolderRow)
    → exists_where (own_folder id user) folders ≡ true
    → member id (folder_ids (select_where (own_folder id user) folders)) ≡ true
unfolding exists_where select_where member
own_root id user [] h = absurd (ground arith)
own_root id user (f ∷ folders) h = ground (arith, own_root id user folders)

only_root :
    (id user a : ℕ) (folders : List FolderRow)
    → member a (folder_ids (select_where (own_folder id user) folders)) ≡ true
    → a ≡ id
unfolding select_where member
only_root id user a [] h = absurd (ground arith)
only_root id user a (f ∷ folders) h = elim (Bool-cases (own_folder id user f && f.id == a)) [
  | inl e ↦ ground arith
  | inr e ↦ only_root id user a folders (ground arith)
]

-- In a forest the query finds what a chain reaches,
doomed_complete :
    (id user x : ℕ) (folders : List FolderRow)
    → IsForest folders
    → exists_where (own_folder id user) folders ≡ true
    → Chain folders id x
    → member x (doomed folders id user) ≡ true
unfolding doomed
doomed_complete id user x folders forest own chain =
    found folders forest (suc (length folders)) id x _ chain (own_root id user folders own)
      (omega (arith, above-length forest.rank folders id))

-- and nothing else.
doomed_sound :
    (id user x : ℕ) (folders : List FolderRow)
    → member x (doomed folders id user) ≡ true
    → Chain folders id x
unfolding doomed
doomed_sound id user x folders h =
    let r = reached folders (suc (length folders)) x _ h in
    subst (λ (a : ℕ). Chain folders a x) (only_root id user r.start folders r.listed) r.chain

abbrev pub lies_in : ℕ → EntryRow → Bool
lies_in x e = elim e.folder_id [ none ↦ false | some f ↦ f == x ]

-- The folders that chains of parents join to a folder are gone with their entries, and all others are
-- there with theirs.
pub record Emptied (id : ℕ) (before after : Db) : Type 0 where
  pub folder_gone :
      (x : ℕ) → Chain before.folders id x → find_where (λ f. f.id == x) after.folders ≡ none
  pub entries_gone :
      (x : ℕ) → Chain before.folders id x → find_where (lies_in x) after.entries ≡ none
  pub folder_kept :
      (x : ℕ)
      → ¬ Chain before.folders id x
      → find_where (λ f. f.id == x) after.folders ≡ find_where (λ f. f.id == x) before.folders
  pub entry_kept :
      (x e : ℕ)
      → ¬ Chain before.folders id x
      → find_where (λ r. r.id == e && lies_in x r) after.entries
        ≡ find_where (λ r. r.id == e && lies_in x r) before.entries

-- The tables behind the two statements.
record Deleted (ids : List ℕ) (before after : Db) : Type 0 where
  folders : after.folders ≡ delete_where (λ f. member f.id ids) before.folders
  entries : after.entries ≡ delete_where (λ e. in_folders ids e.folder_id) before.entries

record FoldersGone (ids : List ℕ) (before after : Db) : Type 0 where
  folders : after.folders ≡ delete_where (λ f. member f.id ids) before.folders
  entries : after.entries ≡ before.entries

delete_folders-FoldersGone :
    (ids : List ℕ) (db : Db) → Returns (FoldersGone ids db) (delete_folders ids db)
unfolding delete_folders
delete_folders-FoldersGone ids db =
    Returns-bind _ _
      λ _ _. Returns-bind _ _ λ _ _. Returns-some (record { folders = refl; entries = refl })

delete_tree-Deleted :
    (w : World) (ids : List ℕ) (db : Db) → Returns (Deleted ids db) (delete_tree w ids db)
unfolding delete_tree delete_entries
delete_tree-Deleted w ids db = Returns-bind _ _ λ _ _. Returns-bind _ _ λ _ _.
    Returns-bind _ _ λ d h. Returns-bind _ _ λ _ _.
      let r =
        (delete_folders-FoldersGone ids (delete_entries (λ e. in_folders ids e.folder_id) db)).at d
          h in
      Returns-some (record { folders = r.folders; entries = r.entries })

answer-Deleted :
    (w : World) (ids : List ℕ) (id : ℕ) (db db' : Db)
    → member id ids ≡ true
    → (elim ids as (λ _. Db × Response (Unit {0})) [
      | [] ↦ (db, reply 204 tt)
      | x ∷ xs ↦
          if is_some (w.breaks 1)
          then (db, error 500 "failed to delete folder")
          else or_fail db
              (error 500 "failed to delete folder")
              (delete_tree w (x ∷ xs) db)
              λ db'. (db', reply 204 tt)
    ])
      ≡ (db', reply 204 tt)
    → Deleted ids db db'
unfolding member
answer-Deleted w [] id db db' own done = absurd (ground arith)
answer-Deleted w (x ∷ xs) id db db' own done = elim (Option-cases (delete_tree w (x ∷ xs) db)) [
  | inl e ↦ absurd (ground arith)
  | inr (d, e) ↦
      let h = (delete_tree-Deleted w (x ∷ xs) db).at d e in
      record { folders = ground (arith, h.folders); entries = ground (arith, h.entries) }
]

delivered-whole : (o : Option ℕ) (ids : List ℕ) → o ≡ none → delivered o ids ≡ ids
unfolding delivered
delivered-whole none ids whole = refl
delivered-whole (some k) ids whole = absurd (ground arith)

delete_folder-Deleted :
    (w : World) (caller : Claims) (id : ℕ) (db db' : Db)
    → w.breaks 1 ≡ none
    → member id (doomed db.folders id caller.user_id) ≡ true
    → delete_folder w caller id db ≡ (db', reply 204 tt)
    → Deleted (doomed db.folders id caller.user_id) db db'
unfolding delete_folder
delete_folder-Deleted w caller id db db' whole own done =
    answer-Deleted w (doomed db.folders id caller.user_id) id db db' own (
      subst
        (λ (ids : List ℕ).
          (elim ids as (λ _. Db × Response (Unit {0})) [
            | [] ↦ (db, reply 204 tt)
            | x ∷ xs ↦
                if is_some (w.breaks 1)
                then (db, error 500 "failed to delete folder")
                else or_fail db (error 500 "failed to delete folder") (delete_tree w (x ∷ xs) db)
                    λ db'. (db', reply 204 tt)
          ])
          ≡ (db', reply 204 tt))
        (delivered-whole (w.breaks 1) (doomed db.folders id caller.user_id) whole) (ground arith))

not_doomed :
    (id user x : ℕ) (folders : List FolderRow)
    → ¬ Chain folders id x
    → member x (doomed folders id user) ≡ false
not_doomed id user x folders apart = elim (Bool-cases (member x (doomed folders id user))) [
  | inl e ↦ absurd (apart (doomed_sound id user x folders e))
  | inr e ↦ e
]

-- If the folders are a forest, the caller owns the folder, the ids of the folders below it are
-- read to the end, and DeleteFolder is answered 204, then the folder and all folders below it are
-- gone with the entries in them, and all other folders are there with the entries in them.
pub delete_folder-Emptied :
    (w : World) (caller : Claims) (id : ℕ) (db db' : Db)
    → IsForest db.folders
    → exists_where (own_folder id caller.user_id) db.folders ≡ true
    → w.breaks 1 ≡ none
    → delete_folder w caller id db ≡ (db', reply 204 tt)
    → Emptied id db db'
delete_folder-Emptied w caller id db db' forest own whole done =
    let root = doomed_complete id caller.user_id id db.folders forest own (here id) in
    let d = delete_folder-Deleted w caller id db db' whole root done in
    record {
      folder_gone = λ x chain.
          let m = doomed_complete id caller.user_id x db.folders forest own chain in
          ap (find_where (λ f. f.id == x)) d.folders
          ∙ find-delete_self _ _ db.folders (λ f h. ground arith);
      entries_gone = λ x chain.
          let m = doomed_complete id caller.user_id x db.folders forest own chain in
          ap (find_where (lies_in x)) d.entries
          ∙ find-delete_self _ _ db.entries (λ e h. ground arith);
      folder_kept = λ x apart.
          let m = not_doomed id caller.user_id x db.folders apart in
          ap (find_where (λ f. f.id == x)) d.folders
          ∙ find-delete _ _ db.folders (λ f h. ground arith);
      entry_kept = λ x e apart.
          let m = not_doomed id caller.user_id x db.folders apart in
          ap (find_where (λ r. r.id == e && lies_in x r)) d.entries
          ∙ find-delete _ _ db.entries (λ r h. ground arith);
    }
