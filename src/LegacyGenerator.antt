-- ===== src/LegacyGenerator.antt =====
-- The server's own password generator, backend/internal/api/handlers/generate.go, which is kept for
-- older builds of the app. Its passwords consist of ASCII characters; characters that a request
-- excludes and that are none of ASCII remove nothing. crypto/rand is the parameter `draw` of
-- Generator.
use passbubble.Prelude.{
  ℕ, zero, suc, ℤ, pos, negsuc, less_than, ◌+◌, String, Bool, true, false, ◌&&◌, Option, none, some,
  List, [], ◌∷◌, ◌++◌, ltb, leb, str_eq, if◌then◌else◌, length,
}
use passbubble.Texts.{Text, text, has_char, is_blank}
use passbubble.Store.{Response, error, reply}
use passbubble.Generator.{
  Draw, Made, failed, got, ◌>>=◌, give, pick, lowercase_chars, uppercase_chars, digit_chars,
  default_symbol_set,
}

-- charsetAmb
abbrev pub ambiguous_set : String
ambiguous_set = "0Ol1I"

-- models.GenerateRequest; a count or a length that is missing is 0.
pub record GenerateRequest : Type 0 where
  pub length : ℤ
  pub kind : String
  pub no_ambiguous : Bool
  pub exclude_chars : Text
  pub count : ℤ

-- models.GeneratedPassword
pub record GeneratedPassword : Type 0 where
  pub password : Text
  pub strength : ℕ

-- A number held between two bounds.
unfoldable pub clamp : ℕ → ℕ → ℤ → ℕ
clamp low high (negsuc z) = low
clamp low high (pos z) = if ltb z low then low else if ltb high z then high else z

-- The length that is generated.
unfoldable pub length_of : ℤ → ℕ
length_of z = if less_than z 1 then 20 else clamp 8 128 z

-- The switch of generatePassword.
unfoldable pub charset_of : String → Text
charset_of kind =
    if str_eq kind "alphanum"
    then text lowercase_chars ++ text uppercase_chars ++ text digit_chars
    else if str_eq kind "numbers"
    then text digit_chars
    else if str_eq kind "lower"
    then text lowercase_chars
    else text lowercase_chars ++ text uppercase_chars ++ text digit_chars ++ text default_symbol_set

-- removeChar, for every character to be removed.
unfoldable pub remove_chars : Text → Text → Text
remove_chars removed [] = []
remove_chars removed (c ∷ cs) =
    let rest = remove_chars removed cs in if has_char c removed then rest else c ∷ rest

-- The characters that are left to choose from.
unfoldable pub remaining : GenerateRequest → Text
remaining req =
    let left = remove_chars req.exclude_chars (charset_of req.kind) in
    let charset = if req.no_ambiguous then remove_chars (text ambiguous_set) left else left in
    if is_blank charset then text lowercase_chars else charset

-- The classes of characters that passwordStrength has seen.
pub record Seen : Type 0 where
  pub has_lower : Bool
  pub has_upper : Bool
  pub has_digit : Bool
  pub has_symbol : Bool

abbrev pub none_seen : Seen
none_seen = record { has_lower = false; has_upper = false; has_digit = false; has_symbol = false }

abbrev pub see : ℕ → Seen → Seen
see c s =
    if leb 97 c && leb c 122
    then record s { has_lower = true }
    else if leb 65 c && leb c 90
    then record s { has_upper = true }
    else if leb 48 c && leb c 57
    then record s { has_digit = true }
    else record s { has_symbol = true }

-- The loop of passwordStrength.
unfoldable pub see_all : Text → Seen
see_all [] = none_seen
see_all (c ∷ cs) = see c (see_all cs)

abbrev pub points : Bool → ℕ → ℕ
points b n = if b then n else 0

-- passwordStrength; the sum is at most 100.
unfoldable pub password_strength : Text → ℕ
password_strength pw =
    let s = see_all pw in
    points (leb 8 (length pw)) 20
    + points (leb 16 (length pw)) 20
    + points (leb 24 (length pw)) 10
    + points s.has_lower 10
    + points s.has_upper 10
    + points s.has_digit 10
    + points s.has_symbol 20

module _ (draw : ℕ → ℕ → Option ℕ) where
  -- The loop of generatePassword.
  unfoldable pub draw_chars : Text → ℕ → Draw Text
  draw_chars charset zero = give []
  draw_chars charset (suc n) = do c ← pick draw charset; cs ← draw_chars charset n; give (c ∷ cs)

  -- generatePassword
  unfoldable pub generate_password : ℕ → GenerateRequest → Draw Text
  generate_password n req = draw_chars (remaining req) n

  -- The loop of Generate.
  unfoldable pub generate_all : ℕ → GenerateRequest → Draw (List GeneratedPassword)
  generate_all zero req = give []
  generate_all (suc n) req = do
    pw ← generate_password (length_of req.length) req
    rest ← generate_all n req
    give (record { password = pw; strength = password_strength pw } ∷ rest)

  abbrev pub answer_of : Made (List GeneratedPassword) → Response (List GeneratedPassword)
  answer_of (failed e) = error 500 "generation failed"
  answer_of (got pws n) = reply 200 pws

  -- Generate
  unfoldable pub generate_passwords : Option GenerateRequest → Response (List GeneratedPassword)
  generate_passwords none = error 400 "invalid request"
  generate_passwords (some req) = answer_of (generate_all (clamp 1 10 req.count) req 0)
