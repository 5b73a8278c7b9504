-- ===== src/Prelude/Counts.antt =====
-- How many rows a condition selects, through deletion, ordering and cutting off.
use mathlib.Core.Path.{◌≡◌, refl}
use mathlib.Core.Bool.{Bool, true, false, not, ◌&&◌}
use mathlib.Core.List.{List, [], ◌∷◌, ◌++◌}
use native.Mathlib.Omega.{arith}
use Prim.Native.Nat.{ℕ, zero, suc, ◌≤◌, ◌+◌}
use passbubble.Prelude.Tests.{if◌then◌else◌}
use passbubble.Prelude.Lists.{length, drop, All}
use passbubble.Prelude.Tables.{select_where, delete_where, insert_by, order_by, exists_where}

module _ {ℓ} {A : Type ℓ} where
  -- How many rows the condition selects.
  abbrev pub tally : (A → Bool) → List A → ℕ
  tally p [] = 0
  tally p (x ∷ xs) = if p x then suc (tally p xs) else tally p xs

  pub length-select : (p : A → Bool) (xs : List A) → length (select_where p xs) ≡ tally p xs
  unfolding select_where
  length-select p [] = refl
  length-select p (x ∷ xs) = ground (arith, length-select p xs)

  pub tally-select :
      (p q : A → Bool) (xs : List A) → tally q (select_where p xs) ≡ tally (λ x. p x && q x) xs
  unfolding select_where
  tally-select p q [] = refl
  tally-select p q (x ∷ xs) = ground (arith, tally-select p q xs)

  pub tally-delete :
      (p q : A → Bool) (xs : List A)
      → tally p (delete_where q xs) ≡ tally (λ x. p x && not (q x)) xs
  unfolding delete_where
  tally-delete p q [] = refl
  tally-delete p q (x ∷ xs) = ground (arith, tally-delete p q xs)

  tally-insert_by :
      (p : A → Bool) (le : A → A → Bool) (a : A) (xs : List A)
      → tally p (insert_by le a xs) ≡ tally p (a ∷ xs)
  unfolding insert_by
  tally-insert_by p le a [] = refl
  tally-insert_by p le a (x ∷ xs) = ground (arith, tally-insert_by p le a xs)

  pub tally-order_by :
      (p : A → Bool) (le : A → A → Bool) (xs : List A) → tally p (order_by le xs) ≡ tally p xs
  unfolding order_by
  tally-order_by p le [] = refl
  tally-order_by p le (x ∷ xs) =
      ground (arith, tally-insert_by p le x (order_by le xs), tally-order_by p le xs)

  pub tally-le-cut : (p : A → Bool) (n : ℕ) (xs : List A) → tally p xs ≤ n + tally p (drop n xs)
  tally-le-cut p zero xs = omega arith
  tally-le-cut p (suc n) [] = omega arith
  tally-le-cut p (suc n) (x ∷ xs) = ground (arith, tally-le-cut p n xs)

  pub tally-drop-le : (p : A → Bool) (n : ℕ) (xs : List A) → tally p (drop n xs) ≤ tally p xs
  tally-drop-le p zero xs = omega arith
  tally-drop-le p (suc n) [] = omega arith
  tally-drop-le p (suc n) (x ∷ xs) = ground (arith, tally-drop-le p n xs)

  pub tally_mono :
      (p q : A → Bool) (xs : List A)
      → All (λ x. p x ≡ true → q x ≡ true) xs
      → tally p xs ≤ tally q xs
  tally_mono p q [] h = omega arith
  tally_mono p q (x ∷ xs) h = ground (arith, h.0, tally_mono p q xs h.1)

  pub exists-insert_by :
      (p : A → Bool) (le : A → A → Bool) (a : A) (xs : List A)
      → exists_where p (insert_by le a xs) ≡ exists_where p (a ∷ xs)
  unfolding insert_by exists_where
  exists-insert_by p le a [] = refl
  exists-insert_by p le a (x ∷ xs) = ground (arith, exists-insert_by p le a xs)

  pub exists-order_by :
      (p : A → Bool) (le : A → A → Bool) (xs : List A)
      → exists_where p (order_by le xs) ≡ exists_where p xs
  unfolding order_by exists_where
  exists-order_by p le [] = refl
  exists-order_by p le (x ∷ xs) =
      ground (arith, exists-insert_by p le x (order_by le xs), exists-order_by p le xs)

  pub exists-drop :
      (p : A → Bool) (n : ℕ) (xs : List A)
      → exists_where p xs ≡ false
      → exists_where p (drop n xs) ≡ false
  unfolding exists_where
  exists-drop p zero xs h = h
  exists-drop p (suc n) [] h = h
  exists-drop p (suc n) (x ∷ xs) h = ground (arith, exists-drop p n xs)

  pub exists-select :
      (p q : A → Bool) (xs : List A)
      → exists_where p xs ≡ false
      → exists_where p (select_where q xs) ≡ false
  unfolding exists_where select_where
  exists-select p q [] h = h
  exists-select p q (x ∷ xs) h = ground (arith, exists-select p q xs)

  pub tally-append_one :
      (p : A → Bool) (xs : List A) (y : A)
      → tally p (xs ++ y ∷ []) ≡ tally p xs + (if p y then 1 else 0)
  tally-append_one p [] y = ground arith
  tally-append_one p (x ∷ xs) y = ground (arith, tally-append_one p xs y)

  pub tally_none : (p : A → Bool) (xs : List A) → ((x : A) → p x ≡ false) → tally p xs ≡ 0
  tally_none p [] h = refl
  tally_none p (x ∷ xs) h = ground (arith, h x, tally_none p xs h)

  pub tally-append : (p : A → Bool) (xs ys : List A) → tally p (xs ++ ys) ≡ tally p xs + tally p ys
  tally-append p [] ys = omega arith
  tally-append p (x ∷ xs) ys = ground (arith, tally-append p xs ys)

  pub tally_le :
      (p q : A → Bool) (xs : List A) → ((x : A) → p x ≡ true → q x ≡ true) → tally p xs ≤ tally q xs
  tally_le p q [] h = omega arith
  tally_le p q (x ∷ xs) h = ground (arith, h x, tally_le p q xs h)
