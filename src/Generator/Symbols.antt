-- ===== src/Generator/Symbols.antt =====
-- CleanSymbolSet of cli/pkg/generator/generator.go.
use passbubble.Prelude.{
  ℕ, ◌+◌, ◌≤◌, Bool, false, not, ◌&&◌, ◌||◌, List, [], ◌∷◌, ◌==◌, if◌then◌else◌, map, ◌≡◌, refl,
  arith, tally, ap, Bool-cases, inl, inr,
}
use passbubble.Texts.{Text, is_space, has_char}
use passbubble.Generator.{Decoded, invalid_byte, point, is_control, clean_from, clean_symbol_set}

-- The set has the character, whole.
abbrev pub occurs : ℕ → List Decoded → Bool
occurs r [] = false
occurs r (invalid_byte ∷ rest) = occurs r rest
occurs r (point c ∷ rest) = r == c || occurs r rest

abbrev pub is_usable : ℕ → Bool
is_usable r = not (is_space r || is_control r)

has_char-clean_from :
    (seen : Text) (set : List Decoded) (r : ℕ)
    → has_char r (clean_from seen set) ≡ (occurs r set && is_usable r && not (has_char r seen))
unfolding clean_from has_char
has_char-clean_from seen [] r = ground arith
has_char-clean_from seen (invalid_byte ∷ rest) r = has_char-clean_from seen rest r
has_char-clean_from seen (point c ∷ rest) r =
    let skipped = has_char-clean_from seen rest r in
    let kept = has_char-clean_from (c ∷ seen) rest r in
    elim (Bool-cases (r == c)) [
      | inl e ↦ (let same : r ≡ c = ground arith in ground (arith, same, skipped, kept))
      | inr e ↦ ground (arith, skipped, kept)
    ]

once-clean_from :
    (seen : Text) (set : List Decoded) (r : ℕ)
    → tally (λ c. r == c) (clean_from seen set) + (if has_char r seen then 1 else 0) ≤ 1
unfolding clean_from has_char
once-clean_from seen [] r = ground arith
once-clean_from seen (invalid_byte ∷ rest) r = once-clean_from seen rest r
once-clean_from seen (point c ∷ rest) r =
    ground (arith, once-clean_from seen rest r, once-clean_from (c ∷ seen) rest r)

clean_from_again :
    (seen : Text) (set : List Decoded)
    → clean_from seen (map point (clean_from seen set)) ≡ clean_from seen set
unfolding clean_from
clean_from_again seen [] = refl
clean_from_again seen (invalid_byte ∷ rest) = clean_from_again seen rest
clean_from_again seen (point c ∷ rest) =
    elim (Bool-cases (is_space c || is_control c || has_char c seen)) [
      | inl e ↦ rw e (clean_from_again seen rest)
      | inr e ↦ rw (e, e) (ap (◌∷◌ c) (clean_from_again (c ∷ seen) rest))
    ]

-- The cleaned set, apart from how it is found.
pub record IsCleaned (set : List Decoded) (out : Text) : Type 0 where
  pub chars : (r : ℕ) → has_char r out ≡ (occurs r set && is_usable r)
  pub once : (r : ℕ) → tally (λ c. r == c) out ≤ 1
  pub again : clean_symbol_set (map point out) ≡ out

-- CleanSymbolSet keeps of the symbol set exactly the characters that are neither spaces nor control
-- characters, each once, and cleaning its result again changes nothing.
pub clean_symbol_set-IsCleaned : (set : List Decoded) → IsCleaned set (clean_symbol_set set)
unfolding clean_symbol_set has_char
clean_symbol_set-IsCleaned set = record {
  chars = λ r. ground (arith, has_char-clean_from [] set r);
  once = λ r. ground (arith, once-clean_from [] set r);
  again = clean_from_again [] set;
}
