-- ===== src/Texts.antt =====
-- Texts as lists of code points, with the tests of Go's strings and unicode packages that the
-- client uses on them: unicode.IsSpace is written out.
use passbubble.Prelude.{
  ◌≡◌, refl, arith, ◌++◌, ℕ, Bool, true, false, ◌&&◌, ◌||◌, List, [], ◌∷◌, ◌==◌, leb, if◌then◌else◌,
  String,
}
use Prim.Native.Char.{code}

abbrev pub Text : Type 0
Text = List ℕ

-- unicode.IsSpace
unfoldable pub is_space : ℕ → Bool
is_space c =
    leb 9 c && leb c 13
    || c == 32
    || c == 133
    || c == 160
    || c == 5760
    || leb 8192 c && leb c 8202
    || c == 8232
    || c == 8233
    || c == 8239
    || c == 8287
    || c == 12288

unfoldable pub trim_left : (ℕ → Bool) → Text → Text
trim_left p [] = []
trim_left p (c ∷ cs) = let rest = trim_left p cs in if p c then rest else c ∷ cs

-- strings.TrimSpace at the end of a text.
unfoldable pub trim_right : (ℕ → Bool) → Text → Text
trim_right p [] = []
trim_right p (c ∷ cs) = elim (trim_right p cs) [
  | [] ↦ if p c then [] else c ∷ []
  | d ∷ ds ↦ c ∷ d ∷ ds
]

unfoldable pub text_eq : Text → Text → Bool
text_eq [] [] = true
text_eq [] (d ∷ ds) = false
text_eq (c ∷ cs) [] = false
text_eq (c ∷ cs) (d ∷ ds) = let rest = text_eq cs ds in if c == d then rest else false

pub text_eq_refl : (t : Text) → text_eq t t ≡ true
unfolding text_eq
text_eq_refl [] = refl
text_eq_refl (c ∷ t) = ground (arith, text_eq_refl t)

pub text_eq-Same : (a b : Text) → text_eq a b ≡ true → a ≡ b
unfolding text_eq
text_eq-Same [] [] same = refl
text_eq-Same [] (d ∷ ds) same = ground arith
text_eq-Same (c ∷ cs) [] same = ground arith
text_eq-Same (c ∷ cs) (d ∷ ds) same = ground (arith, text_eq-Same cs ds)

-- strings.ContainsRune
unfoldable pub has_char : ℕ → Text → Bool
has_char c [] = false
has_char c (d ∷ ds) = let rest = has_char c ds in if c == d then true else rest

-- []rune(s), for a constant s.
unfoldable pub text : String → Text
text String.[] = []
text (String.◌∷◌ c s) = code c ∷ text s

pub has_char-append : (t u : Text) (r : ℕ) → has_char r (t ++ u) ≡ (has_char r t || has_char r u)
unfolding has_char
has_char-append [] u r = refl
has_char-append (c ∷ t) u r = ground (arith, has_char-append t u r)

abbrev pub is_blank : Text → Bool
is_blank [] = true
is_blank (c ∷ cs) = false

-- strings.HasPrefix, the prefix first.
unfoldable pub has_prefix : Text → Text → Bool
has_prefix [] t = true
has_prefix (c ∷ prefix) [] = false
has_prefix (c ∷ prefix) (d ∷ t) = let rest = has_prefix prefix t in if c == d then rest else false

-- strings.Contains, the part first.
unfoldable pub contains_text : Text → Text → Bool
contains_text part [] = is_blank part
contains_text part (c ∷ t) =
    let later = contains_text part t in if has_prefix part (c ∷ t) then true else later

-- strings.Join
unfoldable pub join : Text → List Text → Text
join separator [] = []
join separator (w ∷ []) = w
join separator (w ∷ v ∷ ws) = w ++ separator ++ join separator (v ∷ ws)

-- strings.TrimSpace
abbrev pub trim : Text → Text
trim t = trim_left is_space (trim_right is_space t)
