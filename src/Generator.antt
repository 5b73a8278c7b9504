-- ===== src/Generator.antt =====
-- The password generator of cli/pkg/generator/generator.go: the options, the character classes and
-- the strong generator. The child modules hold the other kinds of password and the proofs.
--
-- Texts are lists of code points; the symbol set and the excluded characters, which the user gives,
-- may hold bytes that are not UTF-8. crypto/rand is the parameter `draw`: `draw k n` is what the
-- k-th call of rand.Int returns for the bound n, `none` where it fails.
pub mod Kinds
pub mod Strength
pub mod Drawing
pub mod Shuffling
pub mod Symbols
pub mod Classes
pub mod Fitting
pub mod Counting
use passbubble.Prelude.{
  ℕ, ℤ, pos, rest_to, less_than, zero, suc, ◌+◌, ◌-◌, String, Bool, true, false, ◌&&◌, ◌||◌, Option,
  none, some, List, [], ◌∷◌, ◌++◌, ◌==◌, leb, if◌then◌else◌, length, ◌⊎◌, inl, inr, map,
}
use passbubble.Texts.{Text, is_space, has_char, text}

-- What decoding a Go string yields: a code point, or utf8.RuneError for a byte that is not UTF-8.
pub data Decoded : Type 0 where
  invalid_byte : Decoded
  point : ℕ → Decoded

pub data PasswordType : Type 0 where
  strong : PasswordType
  alphanumeric : PasswordType
  numbers : PasswordType
  memorable : PasswordType
  passphrase : PasswordType

abbrev pub lowercase_chars : String
lowercase_chars = "abcdefghijklmnopqrstuvwxyz"

abbrev pub uppercase_chars : String
uppercase_chars = "ABCDEFGHIJKLMNOPQRSTUVWXYZ"

abbrev pub digit_chars : String
digit_chars = "0123456789"

abbrev pub default_symbol_set : String
default_symbol_set = "!@#$%^&*()_+-=[]{}|;:,.<>?"

abbrev pub ambiguous_chars : String
ambiguous_chars = "0Oo1lI|"

abbrev pub default_length : ℕ
default_length = 20

-- ErrNoClasses, ErrEmptyClass and ErrTooShort; the errors of randomIndex; and a panic of the Go
-- runtime: a nil number, an index or a slice out of range.
pub data Failure : Type 0 where
  no_classes : Failure
  empty_class : Failure
  too_short : Failure
  empty_choice : Failure
  no_randomness : Failure
  panicked : Failure

pub record Options : Type 0 where
  pub length : ℤ
  pub type : PasswordType
  pub count : ℤ
  pub lowercase : Bool
  pub uppercase : Bool
  pub digits : Bool
  pub symbols : Bool
  pub symbol_set : List Decoded
  pub exclude_chars : List Decoded
  pub no_ambiguous : Bool

-- DefaultOptions
unfoldable pub default_options : Options
default_options = record {
  length = pos default_length;
  type = strong;
  count = pos 1;
  lowercase = true;
  uppercase = true;
  digits = true;
  symbols = true;
  symbol_set = map point (text default_symbol_set);
  exclude_chars = [];
  no_ambiguous = false;
}

-- unicode.IsControl
unfoldable pub is_control : ℕ → Bool
is_control c = leb c 31 || leb 127 c && leb c 159

-- The loop of CleanSymbolSet, with the characters seen.
unfoldable pub clean_from : Text → List Decoded → Text
clean_from seen [] = []
clean_from seen (invalid_byte ∷ rest) = clean_from seen rest
clean_from seen (point r ∷ rest) =
    let skipped = clean_from seen rest in
    let kept = clean_from (r ∷ seen) rest in
    if is_space r || is_control r || has_char r seen then skipped else r ∷ kept

-- CleanSymbolSet
unfoldable pub clean_symbol_set : List Decoded → Text
clean_symbol_set set = clean_from [] set

-- strings.ContainsRune on a string of the user: U+FFFD is found where a byte is not UTF-8.
unfoldable pub contains_rune : ℕ → List Decoded → Bool
contains_rune r [] = false
contains_rune r (invalid_byte ∷ rest) =
    let later = contains_rune r rest in if r == 65533 then true else later
contains_rune r (point c ∷ rest) =
    let later = contains_rune r rest in if r == c then true else later

-- The characters of a class that are not removed.
unfoldable pub without : List Decoded → Text → Text
without removed [] = []
without removed (r ∷ rest) =
    let others = without removed rest in if contains_rune r removed then others else r ∷ others

pub record CharClass : Type 0 where
  pub enabled : Bool
  pub chars : Text

-- The loop of classes over the four classes.
unfoldable pub filter_classes : List Decoded → List CharClass → Failure ⊎ List Text
filter_classes removed [] = inr []
filter_classes removed (c ∷ rest) =
    let others = filter_classes removed rest in
    if c.enabled
    then elim (without removed c.chars) [
      | [] ↦ inl empty_class
      | r ∷ rs ↦ elim others [ inl e ↦ inl e | inr out ↦ inr ((r ∷ rs) ∷ out) ]
    ]
    else others

unfoldable pub all_classes : Options → List CharClass
all_classes o =
    record { enabled = o.lowercase; chars = text lowercase_chars }
    ∷ record { enabled = o.uppercase; chars = text uppercase_chars }
    ∷ record { enabled = o.digits; chars = text digit_chars }
    ∷ record { enabled = o.symbols; chars = clean_symbol_set o.symbol_set }
    ∷ []

unfoldable pub removed_chars : Options → List Decoded
removed_chars o =
    if o.no_ambiguous then o.exclude_chars ++ map point (text ambiguous_chars) else o.exclude_chars

-- Options.classes
unfoldable pub classes : Options → Failure ⊎ List Text
classes o = elim (filter_classes (removed_chars o) (all_classes o)) [
  | inl e ↦ inl e
  | inr [] ↦ inl no_classes
  | inr (c ∷ cs) ↦ if less_than o.length (length (c ∷ cs)) then inl too_short else inr (c ∷ cs)
]

-- Options.Validate
unfoldable pub validate : Options → Option Failure
validate o = elim (classes o) [ inl e ↦ some e | inr cs ↦ none ]

-- The characters of a class that the union does not have yet.
unfoldable pub add_new : Text → Text → Text
add_new union [] = union
add_new union (c ∷ cs) = add_new (if has_char c union then union else union ++ c ∷ []) cs

unfoldable pub union_from : Text → List Text → Text
union_from union [] = union
union_from union (class ∷ rest) = union_from (add_new union class) rest

-- A computation that may call rand.Int: it fails, or has a result and the number of the next call.
pub data Made (A : Type 0) : Type 0 where
  failed : Failure → Made A
  got : A → ℕ → Made A

abbrev pub Draw : Type 0 → Type 0
Draw A = ℕ → Made A

infixl 5 ◌>>=◌
abbrev pub ◌>>=◌ : {A B : Type 0} → Draw A → (A → Draw B) → Draw B
◌>>=◌ m f k = elim (m k) [ failed e ↦ failed e | got a next ↦ f a next ]

abbrev pub give : {A : Type 0} → A → Draw A
give a k = got a k

abbrev pub fail : {A : Type 0} → Failure → Draw A
fail e k = failed e

-- xs[i]
abbrev pub get_elem? {ℓ} : {A : Type ℓ} → List A → ℕ → Option A
get_elem? [] i = none
get_elem? (x ∷ xs) zero = some x
get_elem? (x ∷ xs) (suc i) = get_elem? xs i

unfoldable pub at : {A : Type 0} → List A → ℕ → Draw A
at xs i = elim (get_elem? xs i) [ none ↦ fail panicked | some x ↦ give x ]

-- xs[i] = x
abbrev pub set {ℓ} : {A : Type ℓ} → List A → ℕ → A → List A
set [] i v = []
set (x ∷ xs) zero v = v ∷ xs
set (x ∷ xs) (suc i) v = x ∷ set xs i v

-- runes[i], runes[j] = runes[j], runes[i]
unfoldable pub swap : Text → ℕ → ℕ → Draw Text
swap t i j = do a ← at t i; b ← at t j; give (set (set t i b) j a)

module _ (draw : ℕ → ℕ → Option ℕ) where
  -- randomIndex
  unfoldable pub random_index : ℕ → Draw ℕ
  random_index n k =
      if n == 0
      then failed empty_choice
      else elim (draw k n) [ none ↦ failed no_randomness | some i ↦ got i (suc k) ]

  -- randomRune and randomChoice
  unfoldable pub pick : {A : Type 0} → List A → Draw A
  pick xs = do i ← random_index (length xs); at xs i

  -- The loop of generateStrong over the classes: a character of each.
  unfoldable pub one_of_each : List Text → Draw Text
  one_of_each [] = give []
  one_of_each (class ∷ rest) = do r ← pick class; rs ← one_of_each rest; give (r ∷ rs)

  -- The loop of generateStrong that fills up.
  unfoldable pub fill : Text → ℕ → Draw Text
  fill union zero = give []
  fill union (suc n) = do r ← pick union; rs ← fill union n; give (r ∷ rs)

  -- The loop of shuffleRunes, from i down to 1.
  unfoldable pub shuffle_from : ℕ → Text → Draw Text
  shuffle_from zero t = give t
  shuffle_from (suc i) t = do j ← random_index (suc (suc i)); u ← swap t (suc i) j; shuffle_from i u

  -- shuffleRunes
  unfoldable pub shuffle : Text → Draw Text
  shuffle t = shuffle_from (length t - 1) t

  -- generateStrong
  unfoldable pub generate_strong : Options → Draw Text
  generate_strong o = elim (classes o) [
    | inl e ↦ fail e
    | inr cs ↦ do
      firsts ← one_of_each cs
      others ← fill (union_from [] cs) (rest_to o.length (length firsts))
      shuffle (firsts ++ others)
  ]
