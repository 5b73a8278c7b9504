-- ===== src/Generator/Drawing.antt =====
-- What the random helpers of cli/pkg/generator/generator.go return when crypto/rand answers.
use passbubble.Prelude.{
  ℕ, zero, suc, ◌+◌, ◌<◌, Option, some, List, [], ◌∷◌, length, ◌≡◌, refl, ◌∙◌, arith, Bool, tally,
  if◌then◌else◌,
}
use passbubble.Generator.{Draw, got, ◌>>=◌, give, get_elem?, at, set, random_index, pick}

-- crypto/rand's rand.Int returns a number below a positive bound.
pub record IsRandom (draw : ℕ → ℕ → Option ℕ) : Type 0 where
  pub answers : (k n : ℕ) → 0 < n → (i : ℕ) × ((draw k n ≡ some i) × (i < n))

-- From any call on, the computation has a result, and it satisfies P.
pub record Gives {A : Type 0} (P : A → Type 0) (m : Draw A) : Type 0 where
  pub result : (k : ℕ) → (a : A) × ((next : ℕ) × ((m k ≡ got a next) × P a))

pub bind-got :
    {A B : Type 0} (m : Draw A) (f : A → Draw B) (k next : ℕ) (a : A)
    → m k ≡ got a next
    → (m >>= f) k ≡ f a next
bind-got m f k next a e = ground arith

module _ {A : Type 0} {P : A → Type 0} where
  pub Gives-give : (a : A) → P a → Gives P (give a)
  Gives-give a p = record { result = λ k. (a, (k, (refl, p))) }

  pub Gives-bind :
      {B : Type 0} {Q : B → Type 0} {m : Draw A} {f : A → Draw B}
      → Gives P m
      → ((a : A) → P a → Gives Q (f a))
      → Gives Q (m >>= f)
  Gives-bind {m} {f} h g = record {
    result = λ k.
        let (a, (next, (e, p))) = h.result k in
        let (b, (last, (e', q))) = (g a p).result next in
        (b, (last, (bind-got m f k next a e ∙ e', q)));
  }

  pub Gives-imp : {Q : A → Type 0} {m : Draw A} → Gives P m → ((a : A) → P a → Q a) → Gives Q m
  Gives-imp h g = record {
    result = λ k. let (a, (next, (e, p))) = h.result k in (a, (next, (e, g a p)));
  }

module _ {A : Type 0} where
  pub get_elem?_defined :
      (xs : List A) (i : ℕ) → i < length xs → (x : A) × (get_elem? xs i ≡ some x)
  get_elem?_defined [] i h = absurd (omega arith)
  get_elem?_defined (x ∷ xs) zero h = (x, refl)
  get_elem?_defined (x ∷ xs) (suc i) h = get_elem?_defined xs i (omega arith)

  pub at-Gives :
      (xs : List A) (i : ℕ) → i < length xs → Gives (λ x. get_elem? xs i ≡ some x) (at xs i)
  unfolding at
  at-Gives xs i h = record {
    result = λ k. let (x, e) = get_elem?_defined xs i h in (x, (k, (ground arith, e)));
  }

  pub length-set : (xs : List A) (i : ℕ) (v : A) → length (set xs i v) ≡ length xs
  length-set [] i v = refl
  length-set (x ∷ xs) zero v = refl
  length-set (x ∷ xs) (suc i) v = omega (arith, length-set xs i v)

  pub get_elem?-set :
      (xs : List A) (i j : ℕ) (a b : A)
      → get_elem? xs j ≡ some b
      → get_elem? (set xs i b) j ≡ some b
  get_elem?-set [] i j a b h = h
  get_elem?-set (x ∷ xs) zero zero a b h = refl
  get_elem?-set (x ∷ xs) zero (suc j) a b h = h
  get_elem?-set (x ∷ xs) (suc i) zero a b h = h
  get_elem?-set (x ∷ xs) (suc i) (suc j) a b h = get_elem?-set xs i j a b h

  -- A write trades the old element for the new one.
  pub tally-set :
      (p : A → Bool) (xs : List A) (i : ℕ) (a v : A)
      → get_elem? xs i ≡ some a
      → tally p (set xs i v) + (if p a then 1 else 0) ≡ tally p xs + (if p v then 1 else 0)
  tally-set p [] i a v h = absurd (ground arith)
  tally-set p (x ∷ xs) zero a v h = ground arith
  tally-set p (x ∷ xs) (suc i) a v h = ground (arith, tally-set p xs i a v h)

module _ (draw : ℕ → ℕ → Option ℕ) (random : IsRandom draw) where
  pub random_index-Gives : (n : ℕ) → 0 < n → Gives (λ i. i < n) (random_index draw n)
  unfolding random_index
  random_index-Gives n h = record {
    result = λ k. let (i, (e, below)) = random.answers k n h in (i, (suc k, (ground arith, below)));
  }

  pub pick-Gives :
      {A : Type 0} (xs : List A)
      → 0 < length xs
      → Gives (λ x. (i : ℕ) × (get_elem? xs i ≡ some x)) (pick draw xs)
  unfolding pick
  pick-Gives xs h =
      Gives-bind (random_index-Gives (length xs) h)
        λ i below. Gives-imp (at-Gives xs i below) λ x e. (i, e)
