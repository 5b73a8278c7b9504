-- ===== src/Generator/Counting.antt =====
-- What Generate of cli/pkg/generator/generator.go returns for each kind of password.
use mathlib.Core.Option.{some-injective}
use passbubble.Prelude.{
  some, ◌<◌, ◌⊎◌, ◌∙◌, subst, map, take, drop, less_than, negsuc, ℕ, ℤ, pos, zero, suc, ◌+◌, ◌-◌,
  ◌≤◌, Bool, true, false, not, Option, none, List, [], ◌∷◌, ◌++◌, ◌==◌, if◌then◌else◌, ◌≡◌, refl,
  arith, inl, inr, Either-cases, All, length, length-append, length-take, ap,
}
use passbubble.Texts.{Text, text, has_char, join}
use passbubble.Generator.{
  Options, PasswordType, get_elem?, ◌>>=◌, give, pick, classes, validate, strong, alphanumeric,
  numbers, memorable, passphrase, generate_strong,
}
use passbubble.Generator.Kinds.{
  words, separators, upper, capitalise, decimal, word_count, at_least_one, alphanumeric_options,
  numbers_options, inserted_digits, random_bool, random_range, maybe_upper, maybe_digit,
  memorable_from, generate_memorable, draw_words, generate_passphrase, generate_kind,
  generate_single, generate_times, generate,
}
use passbubble.Generator.Drawing.{
  IsRandom, Gives, Gives-bind, Gives-give, Gives-imp, pick-Gives, random_index-Gives,
}
use passbubble.Generator.Fitting.{IsFit, generate_strong-IsFit}

-- A word of the list, as it stands or with its first letter in upper case; it has five letters or
-- more.
pub record IsWord (word : Text) : Type 0 where
  pub place : ℕ
  pub listed : Text
  pub found : get_elem? words place ≡ some listed
  pub tail : drop 1 word ≡ drop 1 listed
  pub head : (take 1 word ≡ take 1 listed) ⊎ (take 1 word ≡ map upper (take 1 listed))
  pub long : 5 ≤ length word

-- One of the four separators.
abbrev pub IsSeparator : Text → Type 0
IsSeparator s = (c : ℕ) × (s ≡ c ∷ []) × (has_char c (text "-_.+") ≡ true)

-- Words of the list joined by a separator, three up to a length of twelve, five from twenty on and
-- four between, and a number of two or three digits.
pub record IsPassphrase (len : ℤ) (p : Text) : Type 0 where
  pub selected : List Text
  pub separator : Text
  pub number : ℕ
  pub words : All IsWord selected
  pub three : less_than len 13 ≡ true → length selected ≡ 3
  pub four : less_than len 13 ≡ false → less_than len 20 ≡ true → length selected ≡ 4
  pub five : less_than len 20 ≡ false → length selected ≡ 5
  pub joined_by : IsSeparator separator
  pub low : 10 ≤ number
  pub high : number ≤ 999
  pub form : p ≡ join separator selected ++ decimal number

words_long : All (λ w. 5 ≤ length w) words
unfolding words text
words_long = omega arith

some_words : 0 < length words
unfolding words
some_words = omega arith

separators_known : All IsSeparator separators
unfolding separators text has_char
separators_known =
    ((45, refl, refl), ((95, refl, refl), ((46, refl, refl), ((43, refl, refl), tt))))

get_elem-All :
    (P : Text → Type 0) (xs : List Text) (i : ℕ) (x : Text)
    → All P xs
    → get_elem? xs i ≡ some x
    → P x
get_elem-All P [] i x h found = absurd (ground arith)
get_elem-All P (y ∷ ys) zero x h found = subst P (some-injective y x found) h.0
get_elem-All P (y ∷ ys) (suc i) x h found = get_elem-All P ys i x h.1 found

capitalised :
    (w : Text) (i : ℕ) (b : Bool)
    → get_elem? words i ≡ some w
    → IsWord (if b then capitalise w else w)
unfolding capitalise
capitalised [] i b found =
    absurd (ground (arith, get_elem-All (λ w. 5 ≤ length w) words i [] words_long found))
capitalised (c ∷ w) i false found = record {
  place = i;
  listed = c ∷ w;
  found = found;
  tail = refl;
  head = inl refl;
  long = get_elem-All (λ w. 5 ≤ length w) words i (c ∷ w) words_long found;
}
capitalised (c ∷ w) i true found = record {
  place = i;
  listed = c ∷ w;
  found = found;
  tail = refl;
  head = inr refl;
  long = omega (arith, get_elem-All (λ w. 5 ≤ length w) words i (c ∷ w) words_long found);
}

word_count-three : (len : ℤ) → less_than len 13 ≡ true → word_count len ≡ 3
unfolding word_count
word_count-three (pos n) h = ground arith
word_count-three (negsuc n) h = refl

word_count-four :
    (len : ℤ) → less_than len 13 ≡ false → less_than len 20 ≡ true → word_count len ≡ 4
unfolding word_count
word_count-four (pos n) h k = ground arith
word_count-four (negsuc n) h k = absurd (ground arith)

word_count-five : (len : ℤ) → less_than len 20 ≡ false → word_count len ≡ 5
unfolding word_count
word_count-five (pos n) h = ground arith
word_count-five (negsuc n) h = absurd (ground arith)

-- The options have classes, and the password fits them.
pub record IsStrong (o : Options) (p : Text) : Type 0 where
  pub used : List Text
  pub found : classes o ≡ inr used
  pub fit : IsFit o used p

-- What the user may expect of a password of a kind.
abbrev pub Meets : PasswordType → Options → Text → Type 0
Meets strong o p = IsStrong o p
Meets alphanumeric o p = IsStrong (alphanumeric_options o) p
Meets numbers o p = IsStrong (numbers_options o) p
Meets memorable o p = pos (length p) ≡ o.length
Meets passphrase o p = IsPassphrase o.length p

-- What a kind needs of the options.
abbrev pub IsPossible : PasswordType → Options → Type 0
IsPossible strong o = validate o ≡ none
IsPossible alphanumeric o = validate (alphanumeric_options o) ≡ none
IsPossible numbers o = validate (numbers_options o) ≡ none
IsPossible memorable o = (n : ℕ) × (o.length ≡ pos n)
IsPossible passphrase o = Unit

module _ (draw : ℕ → ℕ → Option ℕ) (random : IsRandom draw) where
  random_bool-Gives : Gives (λ b. Unit) (random_bool draw)
  unfolding random_bool
  random_bool-Gives = record {
    result = λ k.
        let (i, (e, below)) = random.answers k 2 (omega arith) in
        (i == 1, (suc k, (ground arith, tt)));
  }

  maybe_upper-Gives : (c : ℕ) → Gives (λ u. Unit) (maybe_upper draw c)
  unfolding maybe_upper
  maybe_upper-Gives c = Gives-bind random_bool-Gives λ b _. Gives-give _ tt

  digit_if-Gives :
      (b : Bool)
      → Gives
          (λ ds. Unit)
          (if b then (pick draw (text inserted_digits) >>= λ d. give (d ∷ [])) else give [])
  unfolding text
  digit_if-Gives true =
      Gives-bind (pick-Gives draw random (text inserted_digits) (omega arith))
        λ d _. Gives-give (d ∷ []) tt
  digit_if-Gives false = Gives-give [] tt

  maybe_digit-Gives : (inside : Bool) → Gives (λ ds. Unit) (maybe_digit draw inside)
  unfolding maybe_digit text
  maybe_digit-Gives false = Gives-give [] tt
  maybe_digit-Gives true = Gives-bind random_bool-Gives λ b _. digit_if-Gives b

  memorable_from-Gives :
      (n left i : ℕ) (use_consonant : Bool)
      → Gives (λ t. left ≤ length t) (memorable_from draw n left i use_consonant)
  unfolding memorable_from text
  memorable_from-Gives n zero i use_consonant = Gives-give [] (omega arith)
  memorable_from-Gives n (suc left) i use_consonant =
      Gives-bind (pick-Gives draw random _ (ground arith)) λ c _.
        Gives-bind (maybe_upper-Gives c) λ u _. Gives-bind (maybe_digit-Gives _) λ ds _.
          Gives-bind (memorable_from-Gives n left (suc i) (not use_consonant))
            λ rest long. Gives-give (u ∷ ds ++ rest) (omega (arith, length-append ds rest))

  generate_memorable-Gives :
      (n : ℕ) → Gives (λ p. pos (length p) ≡ pos n) (generate_memorable draw (pos n))
  unfolding generate_memorable
  generate_memorable-Gives n =
      Gives-bind (memorable_from-Gives n n 0 true)
        λ t long. Gives-give _ (ap pos (ground (arith, length-take n t)))

  pick_word-Gives : Gives (λ w. (i : ℕ) × (get_elem? words i ≡ some w)) (pick draw words)
  pick_word-Gives = pick-Gives draw random words some_words

  draw_words-Gives : (n : ℕ) → Gives (λ ws. (length ws ≡ n) × All IsWord ws) (draw_words draw n)
  unfolding draw_words
  draw_words-Gives zero = Gives-give [] (refl, tt)
  draw_words-Gives (suc n) = Gives-bind pick_word-Gives λ w (i, found).
      Gives-bind random_bool-Gives λ b _.
        Gives-bind (draw_words-Gives n)
          λ ws (size, are). Gives-give _ (omega (arith, size), (capitalised w i b found, are))

  random_range-Gives :
      (low high : ℕ) → low ≤ high → Gives (λ n. (low ≤ n) × (n ≤ high)) (random_range draw low high)
  unfolding random_range
  random_range-Gives low high h =
      Gives-bind (random_index-Gives draw random (high - low + 1) (omega arith))
        λ n below. Gives-give (n + low) (omega arith, omega arith)

  generate_passphrase-Gives : (len : ℤ) → Gives (IsPassphrase len) (generate_passphrase draw len)
  unfolding generate_passphrase separators
  generate_passphrase-Gives len =
      Gives-bind (draw_words-Gives (word_count len)) λ selected (size, are).
        Gives-bind (pick-Gives draw random separators (omega arith)) λ separator (i, found).
          Gives-bind (random_range-Gives 10 999 (omega arith)) λ number (low, high).
            Gives-give _ record {
              selected = selected;
              separator = separator;
              number = number;
              words = are;
              three = λ h. size ∙ word_count-three len h;
              four = λ h k. size ∙ word_count-four len h k;
              five = λ h. size ∙ word_count-five len h;
              joined_by = get_elem-All IsSeparator separators i separator separators_known found;
              low = low;
              high = high;
              form = refl;
            }

  valid_Gives : (o : Options) → validate o ≡ none → Gives (IsStrong o) (generate_strong draw o)
  unfolding validate
  valid_Gives o h = elim (Either-cases (classes o)) [
    | inl (e, he) ↦ absurd (ground (arith, he))
    | inr (cs, hcs) ↦
        Gives-imp (generate_strong-IsFit draw random o cs hcs)
          λ p fit. record { used = cs; found = hcs; fit = fit }
  ]

  kind_Gives :
      (type : PasswordType) (o : Options)
      → IsPossible type o
      → Gives (Meets type o) (generate_kind draw type o)
  unfolding generate_kind
  kind_Gives strong o h = valid_Gives o h
  kind_Gives alphanumeric o h = valid_Gives (alphanumeric_options o) h
  kind_Gives numbers o h = valid_Gives (numbers_options o) h
  kind_Gives memorable o (n, e) = rw e (generate_memorable-Gives n)
  kind_Gives passphrase o h = generate_passphrase-Gives o.length

  times_Gives :
      (n : ℕ) (o : Options)
      → IsPossible o.type o
      → Gives (λ ps. (length ps ≡ n) × All (Meets o.type o) ps) (generate_times draw n o)
  unfolding generate_times generate_single
  times_Gives zero o h = Gives-give [] (refl, tt)
  times_Gives (suc n) o h = Gives-bind (kind_Gives o.type o h) λ p fit.
      Gives-bind (times_Gives n o h)
        λ ps (size, fits). Gives-give (p ∷ ps) (omega (arith, size), (fit, fits))

  -- For every source of randomness that answers, if the options are possible for the kind asked
  -- for (Validate accepts them with the classes that an alphabet fixes, and the length of a
  -- memorable password is not negative), then Generate succeeds and returns as many passwords as
  -- asked for, one for a count below one. Each fits the classes and has the length, for a strong
  -- password or an alphabet; has exactly the length, for a memorable one; and is three to five
  -- words of the list by length, each as it stands or with its first letter in upper case, joined
  -- by one of four separators, with a number from 10 to 999 behind, for a passphrase.
  pub generate-Meets :
      (o : Options)
      → IsPossible o.type o
      → Gives (λ ps. (length ps ≡ at_least_one o.count) × All (Meets o.type o) ps) (generate draw o)
  unfolding generate
  generate-Meets o h = times_Gives (at_least_one o.count) o h
