-- ===== src/Prelude/Tables.antt =====
-- Tables as lists of rows in storage order, and what SELECT, UPDATE, DELETE, EXISTS and ORDER BY do
-- to them. The condition of a statement is a Boolean function on rows.
use mathlib.Core.Path.{◌≡◌, refl}
use mathlib.Core.Bool.{Bool, true, false, ◌&&◌}
use mathlib.Core.Option.{Option, none, some}
use mathlib.Core.List.{List, [], ◌∷◌, ◌++◌, Perm}
use mathlib.Core.List.Perm
use native.Mathlib.Omega.{arith}
use passbubble.Prelude.Tests.{if◌then◌else◌, Bool-cases}
use Prim.Native.Nat.{ℕ, zero, suc, ◌+◌}
use passbubble.Prelude.Lists.{length, take, drop, All}
use mathlib.Core.Logic.{inl, inr}

module _ {ℓ} {A : Type ℓ} where
  -- SELECT ... WHERE p
  unfoldable pub select_where : (A → Bool) → List A → List A
  select_where p [] = []
  select_where p (x ∷ xs) = let rest = select_where p xs in if p x then x ∷ rest else rest

  -- DELETE ... WHERE p
  unfoldable pub delete_where : (A → Bool) → List A → List A
  delete_where p [] = []
  delete_where p (x ∷ xs) = let rest = delete_where p xs in if p x then rest else x ∷ rest

  -- The rows in front of the first that does not meet the condition.
  unfoldable pub take_while : (A → Bool) → List A → List A
  take_while p [] = []
  take_while p (x ∷ xs) = let rest = take_while p xs in if p x then x ∷ rest else []

  -- The rows that are read of a result which breaks off after some of them, or does not.
  unfoldable pub delivered : Option ℕ → List A → List A
  delivered none xs = xs
  delivered (some k) xs = take k xs

  -- What is read is the front of the rows,
  pub take_while-delivered :
      (p : A → Bool) (o : Option ℕ) (xs : List A)
      → take_while p (delivered o xs) ++ drop (length (take_while p (delivered o xs))) xs ≡ xs
  unfolding take_while delivered
  take_while-delivered p none [] = refl
  take_while-delivered p none (x ∷ xs) = ground (arith, take_while-delivered p none xs)
  take_while-delivered p (some zero) xs = refl
  take_while-delivered p (some (suc k)) [] = refl
  take_while-delivered p (some (suc k)) (x ∷ xs) =
      ground (arith, take_while-delivered p (some k) xs)

  -- and all of them where each meets the condition.
  pub take_while-all :
      (p : A → Bool) (xs : List A) → All (λ x. p x ≡ true) xs → take_while p xs ≡ xs
  unfolding take_while
  take_while-all p [] h = refl
  take_while-all p (x ∷ xs) h = ground (arith, h.0, take_while-all p xs h.1)

  pub take_while-All : (p : A → Bool) (xs : List A) → All (λ x. p x ≡ true) (take_while p xs)
  unfolding take_while
  take_while-All p [] = tt
  take_while-All p (x ∷ xs) = elim (Bool-cases (p x)) [
    | inl e ↦ rw e (e, take_while-All p xs)
    | inr e ↦ rw e tt
  ]

  pub drop-length : (xs : List A) → drop (length xs) xs ≡ []
  drop-length [] = refl
  drop-length (x ∷ xs) = drop-length xs

  -- UPDATE ... SET f WHERE p
  unfoldable pub update_where : (A → Bool) → (A → A) → List A → List A
  update_where p f [] = []
  update_where p f (x ∷ xs) = (if p x then f x else x) ∷ update_where p f xs

  -- QueryRow: the first row that the condition selects.
  unfoldable pub find_where : (A → Bool) → List A → Option A
  find_where p [] = none
  find_where p (x ∷ xs) = let rest = find_where p xs in if p x then some x else rest

  -- SELECT EXISTS(...)
  unfoldable pub exists_where : (A → Bool) → List A → Bool
  exists_where p [] = false
  exists_where p (x ∷ xs) = let rest = exists_where p xs in if p x then true else rest

  -- ORDER BY, `le a b` where `a` may stand before `b`; rows that tie keep their order.
  unfoldable pub insert_by : (A → A → Bool) → A → List A → List A
  insert_by le a [] = a ∷ []
  insert_by le a (x ∷ xs) = let rest = insert_by le a xs in if le a x then a ∷ x ∷ xs else x ∷ rest

  unfoldable pub order_by : (A → A → Bool) → List A → List A
  unfolding insert_by
  order_by le [] = []
  order_by le (x ∷ xs) = insert_by le x (order_by le xs)

module _ {ℓ} {A : Type ℓ} where
  -- An update that leaves a condition alone acts on the row that the condition finds.
  pub find-update :
      (q p : A → Bool) (f : A → A) (xs : List A)
      → ((a : A) → q (f a) ≡ q a)
      → find_where q (update_where p f xs)
        ≡ elim (find_where q xs) [ none ↦ none | some a ↦ some (if p a then f a else a) ]
  unfolding find_where update_where
  find-update q p f [] h = refl
  find-update q p f (x ∷ xs) h = ground (arith, h x, find-update q p f xs h)

  -- A condition that no deleted row meets finds the same row afterwards.
  pub find-delete :
      (q p : A → Bool) (xs : List A)
      → ((a : A) → q a ≡ true → p a ≡ false)
      → find_where q (delete_where p xs) ≡ find_where q xs
  unfolding find_where delete_where
  find-delete q p [] h = refl
  find-delete q p (x ∷ xs) h = ground (arith, h x, find-delete q p xs h)

  -- A condition that all deleted rows meet finds nothing afterwards.
  pub find-delete_self :
      (q p : A → Bool) (xs : List A)
      → ((a : A) → q a ≡ true → p a ≡ true)
      → find_where q (delete_where p xs) ≡ none
  unfolding find_where delete_where
  find-delete_self q p [] h = refl
  find-delete_self q p (x ∷ xs) h = ground (arith, h x, find-delete_self q p xs h)

  pub find-append :
      (q : A → Bool) (xs ys : List A)
      → find_where q (xs ++ ys)
        ≡ elim (find_where q xs) [ none ↦ find_where q ys | some a ↦ some a ]
  unfolding find_where
  find-append q [] ys = refl
  find-append q (x ∷ xs) ys = ground (arith, find-append q xs ys)

  pub find-same :
      (p q : A → Bool) (xs : List A) → ((a : A) → p a ≡ q a) → find_where p xs ≡ find_where q xs
  unfolding find_where
  find-same p q [] h = refl
  find-same p q (x ∷ xs) h = ground (arith, h x, find-same p q xs h)

  pub find_sound : (q : A → Bool) (xs : List A) {a : A} → find_where q xs ≡ some a → q a ≡ true
  unfolding find_where
  find_sound q [] h = cc
  find_sound q (x ∷ xs) {a} h = ground (arith, find_sound q xs {a = a})

  pub exists_where_lem :
      (p : A → Bool) (xs : List A)
      → exists_where p xs ≡ elim (find_where p xs) [ none ↦ false | some a ↦ true ]
  unfolding exists_where find_where
  exists_where_lem p [] = refl
  exists_where_lem p (x ∷ xs) = ground (arith, exists_where_lem p xs)

  pub delete-none :
      (p : A → Bool) (xs : List A) → exists_where p xs ≡ false → delete_where p xs ≡ xs
  unfolding exists_where delete_where
  delete-none p [] h = refl
  delete-none p (x ∷ xs) h = ground (arith, delete-none p xs)

  pub length-insert_by :
      (le : A → A → Bool) (a : A) (xs : List A) → length (insert_by le a xs) ≡ length xs + 1
  unfolding insert_by
  length-insert_by le a [] = omega arith
  length-insert_by le a (x ∷ xs) = ground (arith, length-insert_by le a xs)

  pub length-order_by : (le : A → A → Bool) (xs : List A) → length (order_by le xs) ≡ length xs
  unfolding order_by
  length-order_by le [] = refl
  length-order_by le (x ∷ xs) =
      omega (arith, length-insert_by le x (order_by le xs), length-order_by le xs)

  insert_by-perm : (le : A → A → Bool) (a : A) (xs : List A) → Perm (insert_by le a xs) (a ∷ xs)
  unfolding insert_by
  insert_by-perm le a [] = Perm.refl (a ∷ [])
  insert_by-perm le a (x ∷ xs) = elim (Bool-cases (le a x)) [
    | inl e ↦ rw e (Perm.refl (a ∷ x ∷ xs))
    | inr e ↦ rw e (Perm.trans (Perm.cons x (insert_by-perm le a xs)) (Perm.swap a x xs))
  ]

  -- Ordering neither loses nor invents rows.
  pub order_by-perm : (le : A → A → Bool) (xs : List A) → Perm (order_by le xs) xs
  unfolding order_by
  order_by-perm le [] = Perm.refl []
  order_by-perm le (x ∷ xs) =
      Perm.trans (insert_by-perm le x (order_by le xs)) (Perm.cons x (order_by-perm le xs))

module _ {ℓ} {A : Type ℓ} where
  -- An update of other rows leaves alone what a condition finds.
  pub find-update_disjoint :
      (q p : A → Bool) (f : A → A) (xs : List A)
      → ((a : A) → q (f a) ≡ q a)
      → ((a : A) → q a ≡ true → p a ≡ false)
      → find_where q (update_where p f xs) ≡ find_where q xs
  unfolding find_where update_where
  find-update_disjoint q p f [] h k = refl
  find-update_disjoint q p f (x ∷ xs) h k =
      ground (arith, h x, k x, find-update_disjoint q p f xs h k)

  pub exists_false :
      (p : A → Bool) (xs : List A) → ((a : A) → p a ≡ false) → exists_where p xs ≡ false
  unfolding exists_where
  exists_false p [] h = refl
  exists_false p (x ∷ xs) h = ground (arith, h x, exists_false p xs h)

  pub exists_mono :
      (p q : A → Bool) (xs : List A)
      → ((a : A) → p a ≡ true → q a ≡ true)
      → exists_where p xs ≡ true
      → exists_where q xs ≡ true
  unfolding exists_where
  exists_mono p q [] h e = e
  exists_mono p q (x ∷ xs) h e = ground (arith, h x, exists_mono p q xs h)

  pub exists-append :
      (p : A → Bool) (xs ys : List A)
      → exists_where p (xs ++ ys) ≡ (if exists_where p xs then true else exists_where p ys)
  unfolding exists_where
  exists-append p [] ys = refl
  exists-append p (x ∷ xs) ys = ground (arith, exists-append p xs ys)

  -- A new row that a condition does not meet is not found by it.
  pub find-append_miss :
      (q : A → Bool) (xs : List A) (y : A)
      → q y ≡ false
      → find_where q (xs ++ y ∷ []) ≡ find_where q xs
  unfolding find_where
  find-append_miss q [] y h = ground arith
  find-append_miss q (x ∷ xs) y h = ground (arith, find-append_miss q xs y h)

  -- A new row that a condition meets is found if no row was.
  pub find-append_hit :
      (q : A → Bool) (xs : List A) (y : A)
      → find_where q xs ≡ none
      → q y ≡ true
      → find_where q (xs ++ y ∷ []) ≡ some y
  unfolding find_where
  find-append_hit q [] y e h = ground arith
  find-append_hit q (x ∷ xs) y e h = ground (arith, find-append_hit q xs y)

  pub find-none_and :
      (p q : A → Bool) (xs : List A)
      → find_where p xs ≡ none
      → find_where (λ x. p x && q x) xs ≡ none
  unfolding find_where
  find-none_and p q [] h = refl
  find-none_and p q (x ∷ xs) h = ground (arith, find-none_and p q xs)
