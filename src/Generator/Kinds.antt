-- ===== src/Generator/Kinds.antt =====
-- The kinds of password of cli/pkg/generator/generator.go, memorable passwords, passphrases and the
-- alphabets that are fixed, and Generate, which makes as many as the options ask for.
use passbubble.Prelude.{
  ℕ, ℤ, pos, negsuc, zero, suc, ◌+◌, ◌-◌, ◌/◌, ◌%◌, Bool, true, false, not, ◌&&◌, Option, none,
  some, String, List, [], ◌∷◌, ◌++◌, ◌==◌, ltb, leb, if◌then◌else◌, length, take, map,
}
use passbubble.Texts.{Text, text, join}
use passbubble.Generator.{
  Draw, ◌>>=◌, give, fail, failed, got, panicked, Options, PasswordType, strong, alphanumeric,
  numbers, memorable, passphrase, random_index, pick, generate_strong,
}

abbrev pub vowels : String
vowels = "aeiou"

abbrev pub consonants : String
consonants = "bcdfghjklmnpqrstvwxyz"

abbrev pub inserted_digits : String
inserted_digits = "23456789"

unfoldable pub words : List Text
unfolding text
words = map text (
    "correct" ∷ "horse" ∷ "battery" ∷ "staple" ∷ "dragon" ∷ "monkey" ∷ "pizza" ∷ "guitar"
    ∷ "rainbow" ∷ "thunder" ∷ "mountain" ∷ "river" ∷ "ocean" ∷ "forest" ∷ "castle" ∷ "wizard"
    ∷ "knight" ∷ "princess" ∷ "treasure" ∷ "adventure" ∷ "mystery" ∷ "journey" ∷ "courage"
    ∷ "freedom" ∷ "wisdom" ∷ "strength" ∷ "harmony" ∷ "balance" ∷ "energy" ∷ "spirit" ∷ "magic"
    ∷ "wonder" ∷ [])

unfoldable pub separators : List Text
separators = map text ("-" ∷ "_" ∷ "." ∷ "+" ∷ [])

-- strings.ToUpper on a letter or digit of ASCII.
unfoldable pub upper : ℕ → ℕ
upper c = if leb 97 c && leb c 122 then c - 32 else c

-- strings.ToUpper(word[:1]) + word[1:]
unfoldable pub capitalise : Text → Text
capitalise [] = []
capitalise (c ∷ cs) = upper c ∷ cs

-- %d, for a number of two or three digits.
unfoldable pub decimal : ℕ → Text
decimal n =
    if ltb n 100
    then (48 + n / 10) ∷ (48 + n % 10) ∷ []
    else (48 + n / 100) ∷ (48 + n / 10 % 10) ∷ (48 + n % 10) ∷ []

unfoldable pub word_count : ℤ → ℕ
word_count (negsuc n) = 3
word_count (pos n) = if leb 20 n then 5 else if leb n 12 then 3 else 4

-- A count below one yields a single password.
unfoldable pub at_least_one : ℤ → ℕ
at_least_one (negsuc n) = 1
at_least_one (pos n) = if ltb n 1 then 1 else n

-- The options of the alphabets that are fixed.
unfoldable pub alphanumeric_options : Options → Options
alphanumeric_options o = record o {
  lowercase = true;
  uppercase = true;
  digits = true;
  symbols = false;
}

unfoldable pub numbers_options : Options → Options
numbers_options o = record o {
  lowercase = false;
  uppercase = false;
  digits = true;
  symbols = false;
}

module _ (draw : ℕ → ℕ → Option ℕ) where
  -- randomBool: where rand.Int fails, it reads a nil number.
  unfoldable pub random_bool : Draw Bool
  random_bool k = elim (draw k 2) [ none ↦ failed panicked | some i ↦ got (i == 1) (suc k) ]

  -- randomRange
  unfoldable pub random_range : ℕ → ℕ → Draw ℕ
  random_range low high = do n ← random_index draw (high - low + 1); give (n + low)

  unfoldable pub maybe_upper : ℕ → Draw ℕ
  maybe_upper c = do b ← random_bool; give (if b then upper c else c)

  -- The digit that may follow a letter which is neither the first nor the last.
  unfoldable pub maybe_digit : Bool → Draw Text
  maybe_digit false = give []
  maybe_digit true = do
    b ← random_bool
    if b then (pick draw (text inserted_digits) >>= λ d. give (d ∷ [])) else give []

  -- The loop of generateMemorable at i, with as many turns left.
  unfoldable pub memorable_from : ℕ → ℕ → ℕ → Bool → Draw Text
  memorable_from n zero i use_consonant = give []
  memorable_from n (suc left) i use_consonant = do
    c ← pick draw (if use_consonant then text consonants else text vowels)
    u ← maybe_upper c
    ds ← maybe_digit (ltb 0 i && ltb i (n - 1))
    rest ← memorable_from n left (suc i) (not use_consonant)
    give (u ∷ ds ++ rest)

  -- generateMemorable: result[:Length] panics where the length is negative.
  unfoldable pub generate_memorable : ℤ → Draw Text
  generate_memorable (negsuc n) = fail panicked
  generate_memorable (pos n) = do
    t ← memorable_from n n 0 true
    give (if ltb n (length t) then take n t else t)

  -- The loop of generatePassphrase over the words.
  unfoldable pub draw_words : ℕ → Draw (List Text)
  draw_words zero = give []
  draw_words (suc n) = do
    w ← pick draw words
    b ← random_bool
    ws ← draw_words n
    give ((if b then capitalise w else w) ∷ ws)

  -- generatePassphrase
  unfoldable pub generate_passphrase : ℤ → Draw Text
  generate_passphrase len = do
    selected ← draw_words (word_count len)
    separator ← pick draw separators
    num ← random_range 10 999
    give (join separator selected ++ decimal num)

  -- The switch of generateSingle.
  unfoldable pub generate_kind : PasswordType → Options → Draw Text
  generate_kind strong o = generate_strong draw o
  generate_kind alphanumeric o = generate_strong draw (alphanumeric_options o)
  generate_kind numbers o = generate_strong draw (numbers_options o)
  generate_kind memorable o = generate_memorable o.length
  generate_kind passphrase o = generate_passphrase o.length

  -- generateSingle
  unfoldable pub generate_single : Options → Draw Text
  generate_single o = generate_kind o.type o

  unfoldable pub generate_times : ℕ → Options → Draw (List Text)
  generate_times zero o = give []
  generate_times (suc n) o = do p ← generate_single o; ps ← generate_times n o; give (p ∷ ps)

  -- Generate
  unfoldable pub generate : Options → Draw (List Text)
  generate o = generate_times (at_least_one o.count) o
