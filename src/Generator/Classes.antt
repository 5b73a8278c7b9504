-- ===== src/Generator/Classes.antt =====
-- The character classes of cli/pkg/generator/generator.go and their union.
use passbubble.Prelude.{
  ℕ, suc, zero, ◌<◌, Bool, true, false, ◌||◌, List, [], ◌∷◌, ◌++◌, ◌==◌, if◌then◌else◌, ◌≡◌, refl,
  arith, Bool-cases, inl, inr, All, length, exists_where, some, subst, ◌⊎◌,
}
use passbubble.Texts.{Text, has_char, has_char-append}
use passbubble.Generator.{
  Decoded, Options, CharClass, Failure, empty_class, no_classes, too_short, contains_rune, without,
  filter_classes, all_classes, removed_chars, classes, less_than, add_new, union_from, get_elem?,
}

-- A class that may be drawn from: it has a character, and none that is removed.
pub record IsUsable (removed : List Decoded) (class : Text) : Type 0 where
  pub filled : 0 < length class
  pub kept : (r : ℕ) → has_char r class ≡ true → contains_rune r removed ≡ false

pub has_char-get : (t : Text) (i r : ℕ) → get_elem? t i ≡ some r → has_char r t ≡ true
unfolding has_char
has_char-get [] i r h = absurd (ground arith)
has_char-get (c ∷ t) zero r h = ground arith
has_char-get (c ∷ t) (suc i) r h = ground (arith, has_char-get t i r h)

has_char-without :
    (removed : List Decoded) (t : Text) (r : ℕ)
    → has_char r (without removed t) ≡ true
    → contains_rune r removed ≡ false
unfolding has_char without
has_char-without removed [] r h = absurd (ground arith)
has_char-without removed (c ∷ t) r h = elim (Bool-cases (r == c)) [
  | inl e ↦ (let same : r ≡ c = ground arith in ground (arith, same, has_char-without removed t r))
  | inr e ↦ ground (arith, has_char-without removed t r)
]

-- The class of this turn, with what the rest of the loop returns.
add_class-IsUsable :
    (removed : List Decoded) (t kept : Text) (others : Failure ⊎ List Text) (cs : List Text)
    → without removed t ≡ kept
    → ((ds : List Text) → others ≡ inr ds → All (IsUsable removed) ds)
    → elim kept [
      | [] ↦ inl empty_class
      | r ∷ rs ↦ elim others [ inl e ↦ inl e | inr out ↦ inr ((r ∷ rs) ∷ out) ]
    ]
      ≡ inr cs
    → All (IsUsable removed) cs
add_class-IsUsable removed t [] others cs e rest h = absurd (ground arith)
add_class-IsUsable removed t (r ∷ rs) (inl f) cs e rest h = absurd (ground arith)
add_class-IsUsable removed t (r ∷ rs) (inr out) cs e rest h =
    let usable : IsUsable removed (r ∷ rs) = record {
      filled = omega arith;
      kept = λ c here. has_char-without removed t c (rw e here);
    } in
    let same : (r ∷ rs) ∷ out ≡ cs = ground arith in
    subst (All (IsUsable removed)) same (usable, rest out refl)

filter_classes-IsUsable :
    (removed : List Decoded) (all : List CharClass) (cs : List Text)
    → filter_classes removed all ≡ inr cs
    → All (IsUsable removed) cs
unfolding filter_classes
filter_classes-IsUsable removed [] [] h = tt
filter_classes-IsUsable removed [] (c ∷ cs) h = absurd (ground arith)
filter_classes-IsUsable removed (c ∷ all) cs h = elim (Bool-cases c.enabled) [
  | inl on ↦
      add_class-IsUsable removed c.chars (without removed c.chars) (filter_classes removed all) cs
        refl (filter_classes-IsUsable removed all) (rw on at h)
  | inr off ↦ filter_classes-IsUsable removed all cs (rw off at h)
]

-- The classes that the generator draws from.
pub record AreClasses (o : Options) (cs : List Text) : Type 0 where
  pub usable : All (IsUsable (removed_chars o)) cs
  pub some_class : 0 < length cs
  pub enough : less_than o.length (length cs) ≡ false

checked-AreClasses :
    (o : Options) (found : Failure ⊎ List Text) (cs : List Text)
    → filter_classes (removed_chars o) (all_classes o) ≡ found
    → elim found [
      | inl e ↦ inl e
      | inr [] ↦ inl no_classes
      | inr (d ∷ ds) ↦ if less_than o.length (length (d ∷ ds)) then inl too_short else inr (d ∷ ds)
    ]
      ≡ inr cs
    → AreClasses o cs
checked-AreClasses o (inl e) cs e' h = absurd (ground arith)
checked-AreClasses o (inr []) cs e' h = absurd (ground arith)
checked-AreClasses o (inr (d ∷ ds)) cs e' h =
    let usable = filter_classes-IsUsable (removed_chars o) (all_classes o) (d ∷ ds) e' in
    elim (Bool-cases (less_than o.length (length (d ∷ ds)))) [
      | inl short ↦ absurd (ground arith)
      | inr long ↦
          let same : d ∷ ds ≡ cs = ground arith in
          subst (AreClasses o) same
            record { usable = usable; some_class = omega arith; enough = long }
    ]

pub classes-AreClasses : (o : Options) (cs : List Text) → classes o ≡ inr cs → AreClasses o cs
unfolding classes
classes-AreClasses o cs h =
    checked-AreClasses o (filter_classes (removed_chars o) (all_classes o)) cs refl h

abbrev pub any_has : ℕ → List Text → Bool
any_has r cs = exists_where (has_char r) cs

has_char-eq : (t : Text) (r c : ℕ) → (r == c) ≡ true → has_char r t ≡ has_char c t
has_char-eq t r c e = let same : r ≡ c = ground arith in ground (arith, same)

has_char-add_new :
    (u class : Text) (r : ℕ) → has_char r (add_new u class) ≡ (has_char r u || has_char r class)
unfolding has_char add_new
has_char-add_new u [] r = ground arith
has_char-add_new u (c ∷ class) r = ground (
  arith,
  has_char-add_new u class r,
  has_char-add_new (u ++ c ∷ []) class r,
  has_char-append u (c ∷ []) r,
  has_char-eq u r c,
)

pub has_char-union_from :
    (u : Text) (cs : List Text) (r : ℕ)
    → has_char r (union_from u cs) ≡ (has_char r u || any_has r cs)
unfolding union_from exists_where
has_char-union_from u [] r = ground arith
has_char-union_from u (class ∷ cs) r =
    ground (arith, has_char-union_from (add_new u class) cs r, has_char-add_new u class r)

has_char-filled : (t : Text) (r : ℕ) → has_char r t ≡ true → 0 < length t
unfolding has_char
has_char-filled [] r h = absurd (ground arith)
has_char-filled (c ∷ t) r h = omega arith

pub union_filled :
    (removed : List Decoded) (cs : List Text)
    → All (IsUsable removed) cs
    → 0 < length cs
    → 0 < length (union_from [] cs)
unfolding exists_where has_char
union_filled removed [] h p = absurd (omega arith)
union_filled removed ([] ∷ cs) h p = absurd (omega (arith, h.0.filled))
union_filled removed ((c ∷ class) ∷ cs) h p =
    has_char-filled (union_from [] ((c ∷ class) ∷ cs)) c
      (ground (arith, has_char-union_from [] ((c ∷ class) ∷ cs) c))

pub any_has-kept :
    (removed : List Decoded) (cs : List Text) (r : ℕ)
    → All (IsUsable removed) cs
    → any_has r cs ≡ true
    → contains_rune r removed ≡ false
unfolding exists_where
any_has-kept removed [] r h e = absurd (ground arith)
any_has-kept removed (class ∷ cs) r h e = ground (arith, h.0.kept r, any_has-kept removed cs r h.1)
