-- ===== src/Folders/Moving.antt =====
-- UpdateFolder of backend/internal/api/handlers/folders.go keeps the folders a forest.
use passbubble.Prelude.{
  ℕ, ◌+◌, Bool, true, false, ◌&&◌, ◌||◌, Option, none, some, List, [], ◌∷◌, ◌==◌, if◌then◌else◌,
  exists_where, update_where, ◌≡◌, ◌≢◌, refl, ◌∙◌, ap, arith, String, Bool-cases, Option-cases, inl,
  inr, ◌⊎◌, subst,
}
use passbubble.Store.{
  World, Db, Claims, uuid, respelled, malformed, blank, Response, error, reply, FolderRow, or_fail,
  has_folder, ◌>>=◌, Returns, Returns-bind, Returns-some,
}
use passbubble.Folders.{
  is_child_of, member, descendants, CreateFolderRequest, own_folder, re_parent, parent_of,
  move_folder, check_parent, check_request, update_folder,
}
use passbubble.Folders.Reach.{
  link, here, Chain-snoc, IsForest, descendants_complete, descendants_sound, Chain-climbs,
}

-- The folder and what lies below it.
abbrev pub in_tree : List FolderRow → ℕ → ℕ → Bool
in_tree folders id x = x == id || member x (descendants folders id)

-- A tree takes its children along.
in_tree-closed :
    (folders : List FolderRow) (forest : IsForest folders) (id a b : ℕ)
    → link folders a b ≡ true
    → in_tree folders id a ≡ true
    → in_tree folders id b ≡ true
in_tree-closed folders forest id a b l h = elim (Bool-cases (member a (descendants folders id))) [
  | inl e ↦
      let r = descendants_sound folders id a e in
      ground
        (arith, descendants_complete folders forest id r.child b r.linked (Chain-snoc b r.chain l))
  | inr e ↦
      let same : a ≡ id = ground arith in
      ground (
        arith,
        descendants_complete folders forest id b b
            (subst (λ (x : ℕ). link folders x b ≡ true) same l) (here b),
      )
]

-- The moved folder hangs under its new parent only.
moved_head :
    (id user : ℕ) (name : String) (parent : Option ℕ) (f : FolderRow) (a b : ℕ)
    → own_folder id user f ≡ true
    → (is_child_of a (re_parent name parent f) && (re_parent name parent f).id == b) ≡ true
    → (parent ≡ some a) × (b ≡ id)
unfolding re_parent
moved_head id user name none f a b own h = absurd (ground arith)
moved_head id user name (some p) f a b own h = (ground arith, ground arith)

-- The links after a move: those of before, or from the new parent to the folder.
new_link :
    (id user : ℕ) (name : String) (parent : Option ℕ) (folders : List FolderRow) (a b : ℕ)
    → link (update_where (own_folder id user) (re_parent name parent) folders) a b ≡ true
    → (link folders a b ≡ true) ⊎ ((parent ≡ some a) × (b ≡ id))
unfolding link exists_where update_where re_parent
new_link id user name parent [] a b h = absurd (ground arith)
new_link id user name parent (f ∷ folders) a b h =
    elim (Bool-cases
      (link (update_where (own_folder id user) (re_parent name parent) folders) a b)) [
        | inl e ↦ elim (new_link id user name parent folders a b e) [
          | inl k ↦ inl (ground arith)
          | inr (e₁, same) ↦ inr (e₁, same)
        ]
        | inr e ↦ elim (Bool-cases (own_folder id user f)) [
          | inr k ↦ inl (ground arith)
          | inl k ↦ inr (moved_head id user name parent f a b k (ground arith))
        ]
      ]

-- Moved under a folder outside of its tree, the tree ranks above that folder.
moved-IsForest :
    (id user : ℕ) (name : String) (p : ℕ) (folders : List FolderRow)
    → IsForest folders
    → in_tree folders id p ≡ false
    → IsForest (update_where (own_folder id user) (re_parent name (some p)) folders)
moved-IsForest id user name p folders forest outside = record {
  rank = λ x. if in_tree folders id x then forest.rank x + forest.rank p + 1 else forest.rank x;
  climbs = λ a b l. elim (new_link id user name (some p) folders a b l) [
    | inl k ↦ ground (arith, forest.climbs a b k, in_tree-closed folders forest id a b k)
    | inr (e, same) ↦ ground (arith, e, same, outside)
  ];
}

rooted-IsForest :
    (id user : ℕ) (name : String) (folders : List FolderRow)
    → IsForest folders
    → IsForest (update_where (own_folder id user) (re_parent name none) folders)
rooted-IsForest id user name folders forest = record {
  rank = forest.rank;
  climbs = λ a b l. elim (new_link id user name none folders a b l) [
    | inl k ↦ forest.climbs a b k
    | inr (e, same) ↦ absurd (ground arith)
  ];
}

moved_somewhere :
    (id user : ℕ) (name : String) (parent : Option ℕ) (folders : List FolderRow)
    → IsForest folders
    → ((p : ℕ) → parent ≡ some p → in_tree folders id p ≡ false)
    → IsForest (update_where (own_folder id user) (re_parent name parent) folders)
moved_somewhere id user name none folders forest outside =
    rooted-IsForest id user name folders forest
moved_somewhere id user name (some p) folders forest outside =
    moved-IsForest id user name p folders forest (outside p refl)

-- A move that is written is one to no parent, or to one outside of the folder's tree.
move_folder-IsForest :
    (w : World) (n : ℕ) (caller : Claims) (id : ℕ) (req : CreateFolderRequest) (db : Db)
    → IsForest db.folders
    → ((p : ℕ) → parent_of req.parent_id ≡ some (some p) → in_tree db.folders id p ≡ false)
    → Returns (λ d. IsForest d.folders) (move_folder w n caller id req db)
unfolding move_folder
move_folder-IsForest w n caller id req db forest outside = Returns-bind _ _ λ _ _.
    Returns-bind _ _ λ parent e. Returns-bind _ _ λ _ _. Returns-some (
      moved_somewhere id caller.user_id req.name parent db.folders forest
        (λ p same. outside p (e ∙ ap some same)))

-- The guard lets pass what is outside of the tree, where the parent is spelled as the server does.
check_request-outside :
    (w : World) (n : ℕ) (db : Db) (id : ℕ) (req : CreateFolderRequest) (p : ℕ)
    → req.parent_id ≢ some (respelled id)
    → check_request w n db id req ≡ none
    → parent_of req.parent_id ≡ some (some p)
    → in_tree db.folders id p ≡ false
unfolding check_request check_parent
check_request-outside w n db id req p plain passed named = elim (Option-cases req.parent_id) [
  | inl e ↦ absurd (ground arith)
  | inr (blank, e) ↦ absurd (ground arith)
  | inr (malformed, e) ↦ absurd (ground arith)
  | inr (uuid q, e) ↦ ground arith
  | inr (respelled q, e) ↦ ground (arith, plain)
]

after_guard :
    (db : Db) (guard : Option (Response (Unit {0}))) (written : Option Db)
    → IsForest db.folders
    → (guard ≡ none → Returns (λ d. IsForest d.folders) written)
    → IsForest
        (elim guard as (λ _. Db × Response (Unit {0})) [
          | some failed ↦ (db, failed)
          | none ↦ or_fail db (error 500 "failed to update folder") written λ d. (d, reply 204 tt)
        ]).0.folders
after_guard db (some failed) written forest keeps = forest
after_guard db none none forest keeps = forest
after_guard db none (some d) forest keeps = (keeps refl).at d refl

-- If the folders are a forest and the request does not name the folder itself as the parent in another
-- spelling of its id, then after an UpdateFolder they are a forest again, whoever asks and whatever
-- calls fail.
pub update_folder-IsForest :
    (w : World) (caller : Claims) (id : ℕ) (req : CreateFolderRequest) (db : Db)
    → req.parent_id ≢ some (respelled id)
    → IsForest db.folders
    → IsForest (update_folder w caller id (some req) db).0.folders
unfolding update_folder
update_folder-IsForest w caller id req db plain forest =
    after_guard db (check_request w 0 db id req) (move_folder w 1 caller id req db) forest λ passed.
      move_folder-IsForest w 1 caller id req db forest
        (λ p named. check_request-outside w 0 db id req p plain passed named)

-- A folder that hangs under itself is in no forest.
own_parent-cyclic :
    (id : ℕ) (folders : List FolderRow) → link folders id id ≡ true → ¬ IsForest folders
own_parent-cyclic id folders l forest = omega (arith, forest.climbs id id l)

own_parent-link :
    (id user : ℕ) (name : String) (folders : List FolderRow)
    → exists_where (own_folder id user) folders ≡ true
    → link (update_where (own_folder id user) (re_parent name (some id)) folders) id id ≡ true
unfolding link exists_where update_where re_parent
own_parent-link id user name [] h = ground arith
own_parent-link id user name (f ∷ folders) h = ground (arith, own_parent-link id user name folders)

-- In a forest a folder is not below itself.
not_below_itself :
    (folders : List FolderRow) (id : ℕ)
    → IsForest folders
    → member id (descendants folders id) ≡ false
not_below_itself folders id forest = elim (Bool-cases (member id (descendants folders id))) [
  | inr e ↦ e
  | inl e ↦
      let r = descendants_sound folders id id e in
      absurd (omega (arith, forest.climbs id r.child r.linked, Chain-climbs folders forest r.chain))
]

-- The guard does not see a folder named as its own parent in another spelling of its id: where the
-- folders are a forest and no call fails, its owner's request is answered 204, and the folders are a
-- forest no more.
pub update_folder-self_parent :
    (w : World) (caller : Claims) (id : ℕ) (req : CreateFolderRequest) (db : Db)
    → req.parent_id ≡ some (respelled id)
    → IsForest db.folders
    → exists_where (own_folder id caller.user_id) db.folders ≡ true
    → has_folder db id ≡ true
    → w.fails 0 ≡ false
    → w.fails 1 ≡ false
    → ((update_folder w caller id (some req) db).1 ≡ reply 204 tt)
      × (¬ IsForest (update_folder w caller id (some req) db).0.folders)
unfolding update_folder check_request check_parent move_folder ◌>>=◌
update_folder-self_parent w caller id req db self forest own there ok ok' =
    let moved : update_folder w caller id (some req) db ≡ (
      record db {
        folders =
            update_where (own_folder id caller.user_id) (re_parent req.name (some id)) db.folders;
      },
      reply 204 tt,
    ) =
      ground (arith, not_below_itself db.folders id forest) in
    rw moved
      (refl, own_parent-cyclic id _ (own_parent-link id caller.user_id req.name db.folders own))
