-- ===== src/Tests/Passwords.antt =====
-- Witnesses for the password generator of the command-line client.
use passbubble.Prelude.{
  ℕ, ◌%◌, pos, negsuc, true, false, Option, some, none, List, [], ◌∷◌, ◌≡◌, refl, arith, length,
  All, inr, leb, not, ◌&&◌, ◌||◌, exists_where,
}
use passbubble.Texts.{Text, text, is_space, has_char}
use passbubble.Generator.{
  Options, point, invalid_byte, default_options, classes, validate, generate_strong, failed, got,
  Failure, passphrase, too_short, clean_symbol_set, filter_classes, without, contains_rune,
  all_classes, removed_chars, clean_from, is_control,
}
use passbubble.Generator.Kinds.{generate, at_least_one}
use passbubble.Generator.Drawing.{IsRandom, Gives}
use passbubble.Generator.Symbols.{IsCleaned, clean_symbol_set-IsCleaned}
use passbubble.Generator.Fitting.{IsFit, generate_strong-IsFit, validate-generate_strong}
use passbubble.Generator.Counting.{Meets, generate-Meets}
use passbubble.Generator.Strength.{
  check_strength, within, is_symbol, is_sequential, has_repeated, has_sequence, level_of,
  difference, gained, lost, is_very_strong, check_strength-very_strong,
}

abbrev cyclic : ℕ → ℕ → Option ℕ
cyclic k n = some (k % n)

cyclic-IsRandom : IsRandom cyclic
cyclic-IsRandom = record { answers = λ k n h. (k % n, (refl, grind arith)) }

-- Digits without those that are ambiguous, and a symbol set with a repeated sign and a stray byte.
abbrev pin_options : Options
pin_options = record default_options {
  length = pos 6;
  lowercase = false;
  uppercase = false;
  symbol_set = point 33 ∷ invalid_byte ∷ point 32 ∷ point 33 ∷ [];
  no_ambiguous = true;
}

abbrev pin_classes : List Text
pin_classes = (50 ∷ 51 ∷ 52 ∷ 53 ∷ 54 ∷ 55 ∷ 56 ∷ 57 ∷ []) ∷ (33 ∷ []) ∷ []

pin_classes_lem : classes pin_options ≡ inr pin_classes
unfolding classes filter_classes without contains_rune all_classes removed_chars clean_symbol_set
    clean_from default_options text is_space is_control has_char
pin_classes_lem = refl

generate_strong-IsFit_example :
    Gives (IsFit pin_options pin_classes) (generate_strong cyclic pin_options)
generate_strong-IsFit_example =
    generate_strong-IsFit cyclic cyclic-IsRandom pin_options pin_classes pin_classes_lem

-- Two of the classes of the default options are shorter than one character each.
abbrev short_options : Options
short_options = record pin_options { length = negsuc 0 }

validate-generate_strong_example :
    ((e : Failure)
      → validate short_options ≡ some e
      → generate_strong cyclic short_options 7 ≡ failed e)
    × (validate short_options ≡ none
        → (p : Text) × ((next : ℕ) × (generate_strong cyclic short_options 7 ≡ got p next)))
validate-generate_strong_example = validate-generate_strong cyclic cyclic-IsRandom short_options 7

too_short_lem : validate short_options ≡ some too_short
unfolding validate classes filter_classes without contains_rune all_classes removed_chars
    clean_symbol_set clean_from default_options text is_space is_control has_char
too_short_lem = refl

abbrev phrase_options : Options
phrase_options = record pin_options { type = passphrase; count = pos 3 }

generate-Meets_example :
    Gives
      (λ ps.
        (length ps ≡ at_least_one phrase_options.count) × All (Meets passphrase phrase_options) ps)
      (generate cyclic phrase_options)
generate-Meets_example = generate-Meets cyclic cyclic-IsRandom phrase_options tt

clean_symbol_set-IsCleaned_example :
    IsCleaned
      (point 33 ∷ invalid_byte ∷ point 32 ∷ point 33 ∷ point 8364 ∷ [])
      (clean_symbol_set (point 33 ∷ invalid_byte ∷ point 32 ∷ point 33 ∷ point 8364 ∷ []))
clean_symbol_set-IsCleaned_example =
    clean_symbol_set-IsCleaned (point 33 ∷ invalid_byte ∷ point 32 ∷ point 33 ∷ point 8364 ∷ [])

check_strength-very_strong_example :
    is_very_strong (check_strength (λ t. t) (text "Rain-bow-7")).level ≡ (
      leb 8 (length (text "Rain-bow-7"))
      && exists_where (within 97 122) (text "Rain-bow-7")
      && exists_where (within 65 90) (text "Rain-bow-7")
      && exists_where (within 48 57) (text "Rain-bow-7")
      && exists_where is_symbol (text "Rain-bow-7")
      && not (is_sequential (λ t. t) (text "Rain-bow-7"))
      && (not (has_repeated (text "Rain-bow-7")) || leb 12 (length (text "Rain-bow-7"))))
check_strength-very_strong_example = check_strength-very_strong (λ t. t) (text "Rain-bow-7")

rain_bow : is_very_strong (check_strength (λ t. t) (text "Rain-bow-7")).level ≡ true
unfolding check_strength text level_of difference gained lost is_symbol has_repeated has_sequence
    is_sequential exists_where
rain_bow = refl
