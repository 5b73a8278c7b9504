-- ===== src/Generator/Fitting.antt =====
-- What generateStrong of cli/pkg/generator/generator.go returns.
use passbubble.Prelude.{
  ℕ, ℤ, pos, negsuc, rest_to, zero, suc, ◌+◌, ◌<◌, ◌≤◌, Bool, true, false, not, Option, none, some,
  List, [], ◌∷◌, ◌++◌, ◌≡◌, refl, arith, inl, inr, Either-cases, All, All-imp, length,
  length-append, tally, tally_le, tally-append, exists_where, ap, ◌∙◌,
}
use passbubble.Texts.{Text, has_char}
use passbubble.Generator.{
  Decoded, Options, Failure, classes, validate, removed_chars, contains_rune, union_from, failed,
  got, ◌>>=◌, one_of_each, fill, shuffle, generate_strong, less_than,
}
use passbubble.Generator.Drawing.{IsRandom, Gives, Gives-bind, Gives-give, Gives-imp, pick-Gives}
use passbubble.Generator.Shuffling.{SameChars, SameChars-length, shuffle-Gives}
use passbubble.Generator.Classes.{
  IsUsable, AreClasses, classes-AreClasses, any_has, has_char-get, has_char-union_from,
  union_filled, any_has-kept,
}

-- The password has the length asked for, a character of every class, no character outside the
-- classes, and none that the options remove.
pub record IsFit (o : Options) (cs : List Text) (p : Text) : Type 0 where
  pub size : o.length ≡ pos (length p)
  pub each : All (λ class. 1 ≤ tally (λ r. has_char r class) p) cs
  pub drawn : tally (λ r. not (any_has r cs)) p ≡ 0
  pub kept : tally (λ r. contains_rune r (removed_chars o)) p ≡ 0

-- The same of a part of the password, with its length.
record IsPart (cs ds : List Text) (n : ℕ) (p : Text) : Type 0 where
  size : length p ≡ n
  each : All (λ class. 1 ≤ tally (λ r. has_char r class) p) ds
  drawn : tally (λ r. not (any_has r cs)) p ≡ 0

tally-cons_le : (q : ℕ → Bool) (r : ℕ) (p : Text) → tally q p ≤ tally q (r ∷ p)
tally-cons_le q r p = ground arith

All-cons :
    (cs : List Text) (r : ℕ) (p : Text)
    → All (λ class. 1 ≤ tally (λ c. has_char c class) p) cs
    → All (λ class. 1 ≤ tally (λ c. has_char c class) (r ∷ p)) cs
All-cons cs r p h =
    All-imp cs (λ class le. omega (arith, tally-cons_le (λ c. has_char c class) r p)) h

rest_to_lem : (z : ℤ) (n : ℕ) → less_than z n ≡ false → z ≡ pos (n + rest_to z n)
rest_to_lem (pos z) n h = ap pos (ground arith)
rest_to_lem (negsuc z) n h = absurd (ground arith)

shuffled-IsFit :
    (o : Options) (cs : List Text) (firsts others p : Text)
    → AreClasses o cs
    → IsPart cs cs (length cs) firsts
    → IsPart cs [] (rest_to o.length (length firsts)) others
    → SameChars (firsts ++ others) p
    → IsFit o cs p
shuffled-IsFit o cs firsts others p h first other same =
    let outside : tally (λ r. not (any_has r cs)) p ≡ 0 = omega (
      arith,
      same.as_often (λ r. not (any_has r cs)),
      tally-append (λ r. not (any_has r cs)) firsts others,
      first.drawn,
      other.drawn,
    ) in
    let long : length firsts + rest_to o.length (length firsts) ≡ length p = omega (
      arith,
      SameChars-length (firsts ++ others) p same,
      length-append firsts others,
      first.size,
      other.size,
    ) in
    record {
      size = rest_to_lem o.length (length firsts) (rw first.size h.enough) ∙ ap pos long;
      each =
          All-imp cs
            (λ class le. omega (
              arith,
              le,
              same.as_often (λ r. has_char r class),
              tally-append (λ r. has_char r class) firsts others,
            ))
            first.each;
      drawn = outside;
      kept = omega (
        arith,
        outside,
        tally_le (λ r. contains_rune r (removed_chars o)) (λ r. not (any_has r cs)) p
            (λ r e. ground (arith, any_has-kept (removed_chars o) cs r h.usable)),
      );
    }

module _ (draw : ℕ → ℕ → Option ℕ) (random : IsRandom draw) where
  one_of_each-Gives :
      (removed : List Decoded) (all cs : List Text)
      → ((r : ℕ) → any_has r cs ≡ true → any_has r all ≡ true)
      → All (IsUsable removed) cs
      → Gives (IsPart all cs (length cs)) (one_of_each draw cs)
  unfolding one_of_each exists_where
  one_of_each-Gives removed all [] sub h =
      Gives-give [] record { size = refl; each = tt; drawn = refl }
  one_of_each-Gives removed all (class ∷ cs) sub h =
      Gives-bind (pick-Gives draw random class h.0.filled) λ r (i, at_i).
        let here : has_char r class ≡ true = has_char-get class i r at_i in
        Gives-bind (one_of_each-Gives removed all cs (λ c hc. sub c (ground (arith, hc))) h.1)
          λ rs part. Gives-give (r ∷ rs) record {
            size = omega (arith, part.size);
            each = (ground (arith, here), All-cons cs r rs part.each);
            drawn = ground (arith, here, sub r, part.drawn);
          }

  fill-Gives :
      (cs : List Text) (n : ℕ)
      → 0 < length (union_from [] cs)
      → Gives (IsPart cs [] n) (fill draw (union_from [] cs) n)
  unfolding fill has_char
  fill-Gives cs zero h = Gives-give [] record { size = refl; each = tt; drawn = refl }
  fill-Gives cs (suc n) h = Gives-bind (pick-Gives draw random (union_from [] cs) h) λ r (i, at_i).
      let here : any_has r cs ≡ true =
        ground (arith, has_char-get (union_from [] cs) i r at_i, has_char-union_from [] cs r) in
      Gives-bind (fill-Gives cs n h) λ rs part. Gives-give (r ∷ rs) record {
        size = omega (arith, part.size);
        each = tt;
        drawn = ground (arith, here, part.drawn);
      }

  strong_Gives :
      (o : Options) (cs : List Text)
      → AreClasses o cs
      → Gives (IsFit o cs) do
        firsts ← one_of_each draw cs
        others ← fill draw (union_from [] cs) (rest_to o.length (length firsts))
        shuffle draw (firsts ++ others)
  strong_Gives o cs h =
      Gives-bind (one_of_each-Gives (removed_chars o) cs cs (λ r e. e) h.usable) λ firsts first.
        Gives-bind
          (fill-Gives cs (rest_to o.length (length firsts))
            (union_filled (removed_chars o) cs h.usable h.some_class))
          λ others other.
            let t = firsts ++ others in
            Gives-imp
              (shuffle-Gives draw random t
                (omega (arith, length-append firsts others, first.size, h.some_class)))
              λ p same. shuffled-IsFit o cs firsts others p h first other same

  -- For every source of randomness that answers, if the options have classes to draw from, then
  -- generateStrong succeeds, and its password has exactly the length asked for, a character of every
  -- enabled class, no character outside the enabled classes, and none that the options remove.
  pub generate_strong-IsFit :
      (o : Options) (cs : List Text)
      → classes o ≡ inr cs
      → Gives (IsFit o cs) (generate_strong draw o)
  unfolding generate_strong
  generate_strong-IsFit o cs e =
      rw (generate_strong, e) (strong_Gives o cs (classes-AreClasses o cs e))

  -- For every source of randomness that answers, Validate predicts generateStrong: where Validate
  -- returns an error, generateStrong returns the same, and where it returns none, a password.
  pub validate-generate_strong :
      (o : Options) (k : ℕ)
      → ((e : Failure) → validate o ≡ some e → generate_strong draw o k ≡ failed e)
        × (validate o ≡ none → (p : Text) × ((next : ℕ) × (generate_strong draw o k ≡ got p next)))
  unfolding validate generate_strong
  validate-generate_strong o k = elim (Either-cases (classes o)) [
    | inl (e, he) ↦ ((λ f h. ground (arith, he)), λ h. absurd (ground (arith, he)))
    | inr (cs, hcs) ↦ (
      (λ f h. absurd (ground (arith, hcs))),
      λ h. let (p, (next, (e, fit))) = (generate_strong-IsFit o cs hcs).result k in (p, (next, e)),
    )
  ]
