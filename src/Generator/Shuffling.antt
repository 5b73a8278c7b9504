-- ===== src/Generator/Shuffling.antt =====
-- shuffleRunes of cli/pkg/generator/generator.go rearranges the characters.
use passbubble.Prelude.{
  ℕ, zero, suc, ◌-◌, ◌<◌, Bool, true, Option, length, ◌≡◌, refl, arith, tally, ◌∙◌, [], ◌∷◌,
}
use passbubble.Texts.{Text}
use passbubble.Generator.{set, swap, shuffle_from, shuffle}
use passbubble.Generator.Drawing.{
  Gives, Gives-bind, Gives-give, Gives-imp, at-Gives, get_elem?-set, tally-set, IsRandom,
  random_index-Gives,
}

-- The second text has the characters of the first, each as often.
pub record SameChars (t u : Text) : Type 0 where
  pub as_often : (p : ℕ → Bool) → tally p u ≡ tally p t

pub length-tally : (t : Text) → tally (λ c. true) t ≡ length t
length-tally [] = refl
length-tally (c ∷ t) = omega (arith, length-tally t)

pub SameChars-length : (t u : Text) → SameChars t u → length u ≡ length t
SameChars-length t u h = omega (arith, h.as_often (λ c. true), length-tally t, length-tally u)

swap-Gives : (t : Text) (i j : ℕ) → i < length t → j < length t → Gives (SameChars t) (swap t i j)
unfolding swap
swap-Gives t i j hi hj = Gives-bind (at-Gives t i hi) λ a ea. Gives-bind (at-Gives t j hj) λ b eb.
    Gives-give _ record {
      as_often = λ p. omega (
        arith,
        tally-set p t i a b ea,
        tally-set p (set t i b) j b a (get_elem?-set t i j a b eb),
      );
    }

module _ (draw : ℕ → ℕ → Option ℕ) (random : IsRandom draw) where
  shuffle_from-Gives :
      (i : ℕ) (t : Text) → i < length t → Gives (SameChars t) (shuffle_from draw i t)
  unfolding shuffle_from
  shuffle_from-Gives zero t h = Gives-give t record { as_often = λ p. refl }
  shuffle_from-Gives (suc i) t h =
      Gives-bind (random_index-Gives draw random (suc (suc i)) (omega arith)) λ j below.
        Gives-bind (swap-Gives t (suc i) j h (omega arith)) λ u same.
          Gives-imp (shuffle_from-Gives i u (omega (arith, SameChars-length t u same)))
            λ v same'. record { as_often = λ p. same'.as_often p ∙ same.as_often p }

  pub shuffle-Gives : (t : Text) → 0 < length t → Gives (SameChars t) (shuffle draw t)
  unfolding shuffle
  shuffle-Gives t h = shuffle_from-Gives (length t - 1) t (omega arith)
