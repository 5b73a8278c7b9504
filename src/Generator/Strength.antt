-- ===== src/Generator/Strength.antt =====
-- CheckStrength of cli/pkg/generator/generator.go. A password is the list of its bytes;
-- strings.ToLower is the parameter `lower`, and a regular expression is a test on the bytes.
use passbubble.Prelude.{
  ℕ, ℤ, pos, negsuc, ◌+◌, ◌-◌, Bool, true, false, not, ◌&&◌, ◌||◌, List, [], ◌∷◌, ◌++◌, ◌==◌, leb,
  if◌then◌else◌, length, exists_where, ◌≡◌, arith,
}
use passbubble.Texts.{Text}

pub data Level : Type 0 where
  very_strong : Level
  strong : Level
  moderate : Level
  weak : Level
  very_weak : Level

pub data Advice : Type 0 where
  too_short : Advice
  add_lowercase : Advice
  add_uppercase : Advice
  add_numbers : Advice
  add_symbols : Advice
  avoid_repeated : Advice
  avoid_sequential : Advice

pub record StrengthResult : Type 0 where
  pub password : Text
  pub score : ℤ
  pub level : Level
  pub length : ℕ
  pub has_lower : Bool
  pub has_upper : Bool
  pub has_digits : Bool
  pub has_symbols : Bool
  pub feedback : List Advice

abbrev pub within : ℕ → ℕ → ℕ → Bool
within low high c = leb low c && leb c high

-- [^a-zA-Z0-9]
unfoldable pub is_symbol : ℕ → Bool
is_symbol c = not (within 97 122 c || within 65 90 c || within 48 57 c)

-- The loop that looks for three bytes that are the same.
unfoldable pub has_repeated : Text → Bool
has_repeated (a ∷ b ∷ c ∷ rest) =
    let later = has_repeated (b ∷ c ∷ rest) in if a == b && b == c then true else later
has_repeated password = false

-- (abc|bcd|...): three bytes that follow each other, the first within bounds.
unfoldable pub has_sequence : ℕ → ℕ → Text → Bool
has_sequence low high (a ∷ b ∷ c ∷ rest) =
    let later = has_sequence low high (b ∷ c ∷ rest) in
    if within low high a && b == a + 1 && c == b + 1 then true else later
has_sequence low high password = false

unfoldable pub difference : ℕ → ℕ → ℤ
difference a b = if leb b a then pos (a - b) else negsuc (b - a - 1)

abbrev pub reaches : ℤ → ℕ → Bool
reaches (pos z) n = leb n z
reaches (negsuc z) n = false

unfoldable pub level_of : ℤ → Level
level_of score =
    if reaches score 80
    then very_strong
    else if reaches score 65
    then strong
    else if reaches score 50
    then moderate
    else if reaches score 35
    then weak
    else very_weak

-- What the length and the kinds of characters add to the score.
unfoldable pub gained : ℕ → Bool → Bool → Bool → Bool → ℕ
gained len lower upper digits symbols =
    (if leb 12 len then 25 else if leb 8 len then 15 else 0)
    + (if lower then 15 else 0)
    + (if upper then 15 else 0)
    + (if digits then 15 else 0)
    + (if symbols then 20 else 0)

-- What repeated and sequential characters take off it.
unfoldable pub lost : Bool → Bool → ℕ
lost repeated sequential = (if repeated then 10 else 0) + (if sequential then 15 else 0)

abbrev pub advise : Bool → Advice → List Advice
advise true advice = advice ∷ []
advise false advice = []

module _ (lower : Text → Text) where
  unfoldable pub is_sequential : Text → Bool
  is_sequential password = has_sequence 97 120 (lower password) || has_sequence 48 55 password

  -- CheckStrength
  unfoldable pub check_strength : Text → StrengthResult
  check_strength password =
      let len = length password in
      let has_lower = exists_where (within 97 122) password in
      let has_upper = exists_where (within 65 90) password in
      let has_digits = exists_where (within 48 57) password in
      let has_symbols = exists_where is_symbol password in
      let repeated = has_repeated password in
      let sequential = is_sequential password in
      let score =
        difference (gained len has_lower has_upper has_digits has_symbols)
          (lost repeated sequential) in
      record {
        password = password;
        score = score;
        level = level_of score;
        length = len;
        has_lower = has_lower;
        has_upper = has_upper;
        has_digits = has_digits;
        has_symbols = has_symbols;
        feedback =
            advise (not (leb 8 len)) too_short
            ++ advise (not has_lower) add_lowercase
            ++ advise (not has_upper) add_uppercase
            ++ advise (not has_digits) add_numbers
            ++ advise (not has_symbols) add_symbols
            ++ advise repeated avoid_repeated
            ++ advise sequential avoid_sequential;
      }

abbrev pub is_very_strong : Level → Bool
is_very_strong very_strong = true
is_very_strong strong = false
is_very_strong moderate = false
is_very_strong weak = false
is_very_strong very_weak = false

very_strong_when :
    (len : ℕ) (lower upper digits symbols repeated sequential : Bool)
    → is_very_strong
        (level_of (difference (gained len lower upper digits symbols) (lost repeated sequential)))
      ≡ (leb 8 len
          && lower
          && upper
          && digits
          && symbols
          && not sequential
          && (not repeated || leb 12 len))
unfolding level_of difference gained lost
very_strong_when len lower upper digits symbols repeated sequential = ground arith

-- CheckStrength calls a password very strong exactly if it has at least eight bytes, a lower-case
-- letter, an upper-case letter, a digit and another character, no three letters or digits that
-- follow each other, and no byte three times in a row unless it has at least twelve bytes.
pub check_strength-very_strong :
    (lower : Text → Text) (password : Text)
    → is_very_strong (check_strength lower password).level ≡ (
        leb 8 (length password)
        && exists_where (within 97 122) password
        && exists_where (within 65 90) password
        && exists_where (within 48 57) password
        && exists_where is_symbol password
        && not (is_sequential lower password)
        && (not (has_repeated password) || leb 12 (length password)))
unfolding check_strength
check_strength-very_strong lower password = very_strong_when _ _ _ _ _ _ _
