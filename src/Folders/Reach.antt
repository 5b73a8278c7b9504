-- ===== src/Folders/Reach.antt =====
-- What the recursive queries of backend/internal/api/handlers/folders.go find: in a forest the fuel is
-- enough, and they list the folders that a chain of parents joins to where they start.
use passbubble.Prelude.{
  ℕ, zero, suc, ◌≤◌, ◌<◌, Bool, true, false, ◌&&◌, List, [], ◌∷◌, ◌++◌, ◌==◌, ltb, length,
  select_where, exists_where, tally, ◌≡◌, refl, sym, ◌∙◌, arith, Bool-cases, Option-cases, inl, inr,
}
use passbubble.Store.{FolderRow}
use passbubble.Folders.{is_child_of, has_parent_in, member, folder_ids, descend, descendants}

-- A folder named `b` has the parent `a`.
unfoldable pub link : List FolderRow → ℕ → ℕ → Bool
link folders a b = exists_where (λ f. is_child_of a f && f.id == b) folders

-- A chain of parents from `a` down to `x`.
pub data Chain (folders : List FolderRow) : ℕ → ℕ → Type 0 where
  here : (a : ℕ) → Chain folders a a
  down : (a b x : ℕ) → link folders a b ≡ true → Chain folders b x → Chain folders a x

-- Parents rank below their children, so no folder is its own ancestor.
pub record IsForest (folders : List FolderRow) : Type 0 where
  pub rank : ℕ → ℕ
  pub climbs : (a b : ℕ) → link folders a b ≡ true → rank a < rank b

pub Chain-snoc :
    {folders : List FolderRow} {a b : ℕ} (x : ℕ)
    → Chain folders a b
    → link folders b x ≡ true
    → Chain folders a x
Chain-snoc x (here a) h = down a x x h (here x)
Chain-snoc x (down a c b k chain) h = down a c x k (Chain-snoc x chain h)

-- Down a chain the rank does not fall.
pub Chain-climbs :
    (folders : List FolderRow) (forest : IsForest folders) {a b : ℕ}
    → Chain folders a b
    → forest.rank a ≤ forest.rank b
Chain-climbs folders forest (here a) = omega arith
Chain-climbs folders forest (down a c b k chain) =
    omega (arith, forest.climbs a c k, Chain-climbs folders forest chain)

pub member-append_left : (x : ℕ) (xs ys : List ℕ) → member x xs ≡ true → member x (xs ++ ys) ≡ true
unfolding member
member-append_left x [] ys h = ground arith
member-append_left x (y ∷ xs) ys h = ground (arith, member-append_left x xs ys)

pub member-append_right : (x : ℕ) (xs ys : List ℕ) → member x ys ≡ true → member x (xs ++ ys) ≡ true
unfolding member
member-append_right x [] ys h = h
member-append_right x (y ∷ xs) ys h = ground (arith, member-append_right x xs ys h)

pub member-append_none :
    (x : ℕ) (xs ys : List ℕ) → member x xs ≡ false → member x (xs ++ ys) ≡ member x ys
unfolding member
member-append_none x [] ys h = refl
member-append_none x (y ∷ xs) ys h = ground (arith, member-append_none x xs ys)

-- The next round has the children of the round before.
pub next_round :
    (folders : List FolderRow) (a b : ℕ) (ids : List ℕ)
    → link folders a b ≡ true
    → member a ids ≡ true
    → member b (folder_ids (select_where (has_parent_in ids) folders)) ≡ true
unfolding link exists_where select_where member
next_round [] a b ids h k = ground arith
next_round (f ∷ folders) a b ids h k = ground (arith, next_round folders a b ids)

-- and no others.
pub record FromRound (folders : List FolderRow) (ids : List ℕ) (b : ℕ) : Type 0 where
  pub parent : ℕ
  pub linked : link folders parent b ≡ true
  pub listed : member parent ids ≡ true

pub from_round :
    (folders : List FolderRow) (b : ℕ) (ids : List ℕ)
    → member b (folder_ids (select_where (has_parent_in ids) folders)) ≡ true
    → FromRound folders ids b
unfolding link exists_where select_where member
from_round [] b ids h = absurd (ground arith)
from_round (f ∷ folders) b ids h = elim (Bool-cases (has_parent_in ids f && f.id == b)) [
  | inl e ↦ elim (Option-cases f.parent_id) [
    | inl e₁ ↦ absurd (ground arith)
    | inr (p, e₁) ↦ record { parent = p; linked = ground arith; listed = ground arith }
  ]
  | inr e ↦
      let r = from_round folders b ids (ground arith) in
      record { parent = r.parent; linked = ground (arith, r.linked); listed = r.listed }
]

pub first_round :
    (folders : List FolderRow) (a b : ℕ)
    → member b (folder_ids (select_where (is_child_of a) folders)) ≡ link folders a b
unfolding link exists_where select_where member
first_round [] a b = refl
first_round (f ∷ folders) a b = ground (arith, first_round folders a b)

-- How many folders rank above.
abbrev pub above : (ℕ → ℕ) → List FolderRow → ℕ → ℕ
above rank folders a = tally (λ f. ltb (rank a) (rank f.id)) folders

pub above-length :
    (rank : ℕ → ℕ) (folders : List FolderRow) (a : ℕ) → above rank folders a ≤ length folders
above-length rank [] a = omega arith
above-length rank (f ∷ folders) a = ground (arith, above-length rank folders a)

above_mono :
    (rank : ℕ → ℕ) (folders : List FolderRow) (a b : ℕ)
    → rank a < rank b
    → above rank folders b ≤ above rank folders a
above_mono rank [] a b h = omega arith
above_mono rank (f ∷ folders) a b h = ground (arith, above_mono rank folders a b h)

pub above-link :
    (rank : ℕ → ℕ) (folders : List FolderRow) (a b : ℕ)
    → rank a < rank b
    → link folders a b ≡ true
    → above rank folders b < above rank folders a
unfolding link exists_where
above-link rank [] a b h k = ground arith
above-link rank (f ∷ folders) a b h k =
    ground (arith, above_mono rank folders a b h, above-link rank folders a b h)

-- With fuel for the folders that rank above, what a chain reaches is found.
pub found :
    (folders : List FolderRow) (forest : IsForest folders) (fuel a x : ℕ) (ids : List ℕ)
    → Chain folders a x
    → member a ids ≡ true
    → above forest.rank folders a < fuel
    → member x (descend fuel folders ids) ≡ true
unfolding descend
found folders forest zero a x ids chain h k = absurd (omega arith)
found folders forest (suc fuel) a x ids (here _) h k = member-append_left a ids _ h
found folders forest (suc fuel) a x ids (down _ b _ l chain) h k = member-append_right x ids _ (
    found folders forest fuel b x _ chain (next_round folders a b ids l h)
      (omega (arith, above-link forest.rank folders a b (forest.climbs a b l) l)))

-- What is found is reached by a chain, whatever the fuel.
pub record Reached (folders : List FolderRow) (ids : List ℕ) (x : ℕ) : Type 0 where
  pub start : ℕ
  pub listed : member start ids ≡ true
  pub chain : Chain folders start x

pub reached :
    (folders : List FolderRow) (fuel x : ℕ) (ids : List ℕ)
    → member x (descend fuel folders ids) ≡ true
    → Reached folders ids x
unfolding descend member
reached folders zero x ids h = absurd (ground arith)
reached folders (suc fuel) x ids h = elim (Bool-cases (member x ids)) [
  | inl e ↦ record { start = x; listed = e; chain = here x }
  | inr e ↦
      let r =
        reached folders fuel x (folder_ids (select_where (has_parent_in ids) folders))
          (sym (member-append_none x ids _ e) ∙ h) in
      let s = from_round folders r.start ids r.listed in
      record {
        start = s.parent;
        listed = s.listed;
        chain = down s.parent r.start x s.linked r.chain;
      }
]

-- The query of the cycle guard: in a forest it finds what a chain reaches through a child.
pub descendants_complete :
    (folders : List FolderRow) (forest : IsForest folders) (a b x : ℕ)
    → link folders a b ≡ true
    → Chain folders b x
    → member x (descendants folders a) ≡ true
unfolding descendants
descendants_complete folders forest a b x l chain =
    found folders forest (length folders) b x _ chain (first_round folders a b ∙ l) (
      omega (
        arith,
        above-link forest.rank folders a b (forest.climbs a b l) l,
        above-length forest.rank folders a,
      ))

pub record IsBelow (folders : List FolderRow) (a x : ℕ) : Type 0 where
  pub child : ℕ
  pub linked : link folders a child ≡ true
  pub chain : Chain folders child x

pub descendants_sound :
    (folders : List FolderRow) (a x : ℕ)
    → member x (descendants folders a) ≡ true
    → IsBelow folders a x
unfolding descendants
descendants_sound folders a x h =
    let r = reached folders (length folders) x _ h in
    record {
      child = r.start;
      linked = sym (first_round folders a r.start) ∙ r.listed;
      chain = r.chain;
    }
