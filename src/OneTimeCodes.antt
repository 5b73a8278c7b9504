-- ===== src/OneTimeCodes.antt =====
-- One-time codes of the client: cli/pkg/totp/totp.go, but for the codes themselves, which are
-- computed by pquerna/otp. net/url is the parameter `parse_url`, base32 and the case of letters are
-- parameters too.
use passbubble.Prelude.{
  ℕ, zero, suc, ℤ, pos, negsuc, ◌+◌, ◌-◌, ◌*◌, ◌%◌, ◌^◌, Bool, false, not, ◌&&◌, Option, none, some,
  [], ◌∷◌, ◌++◌, ◌==◌, ltb, leb, if◌then◌else◌, length, take, drop,
}
use passbubble.Texts.{Text, text, text_eq, trim, is_blank, has_prefix}
use passbubble.Importing.{clean_secret}

pub data Algorithm : Type 0 where
  sha1 : Algorithm
  sha256 : Algorithm
  sha512 : Algorithm
  md5 : Algorithm

-- GenerateOptions; `digits` is six or eight.
pub record GenerateOptions : Type 0 where
  pub issuer : Text
  pub account_name : Text
  pub period : ℕ
  pub digits : ℕ
  pub algorithm : Algorithm

-- DefaultOptions
abbrev pub default_options : GenerateOptions
default_options = record {
  issuer = [];
  account_name = [];
  period = 30;
  digits = 6;
  algorithm = sha1;
}

-- What url.Parse yields, with the first value of a parameter, blank where it is missing.
pub record ParsedUrl : Type 0 where
  pub scheme : Text
  pub host : Text
  pub path : Text
  pub param : Text → Text

abbrev pub is_positive : ℤ → Bool
is_positive (pos n) = ltb 0 n
is_positive (negsuc n) = false

abbrev pub magnitude : ℤ → ℕ
magnitude (pos n) = n
magnitude (negsuc n) = 0

-- TrimPrefix(path, "/")
unfoldable pub without_slash : Text → Text
without_slash [] = []
without_slash (c ∷ cs) = if c == 47 then cs else c ∷ cs

-- The number that the digits make behind `acc`: `none` where there is something else.
unfoldable pub read_digits : ℕ → Text → Option ℕ
read_digits acc [] = some acc
read_digits acc (c ∷ cs) =
    let rest = read_digits (acc * 10 + (c - 48)) cs in if leb 48 c && leb c 57 then rest else none

-- strconv.ParseUint(s, 10, 32)
unfoldable pub parse_uint32 : Text → Option ℕ
parse_uint32 [] = none
parse_uint32 (c ∷ cs) = elim (read_digits 0 (c ∷ cs)) [
  | none ↦ none
  | some n ↦ if ltb n (2 ^ 32) then some n else none
]

-- The period that an otpauth URL sets.
unfoldable pub url_period : Text → ℕ → ℕ
url_period s default = elim (parse_uint32 s) [ none ↦ default | some p ↦ p ]

-- The digits that an otpauth URL sets.
unfoldable pub url_digits : Text → ℕ → ℕ
url_digits s default =
    if text_eq s (text "6") then 6 else if text_eq s (text "8") then 8 else default

-- GetTimeRemaining at a time in seconds.
unfoldable pub time_remaining_of : ℕ → ℕ → ℕ
time_remaining_of period now = (period - now % period) % period

unfoldable pub get_time_remaining : ℕ → ℕ → ℕ
get_time_remaining period now =
    if period == 0 then time_remaining_of 30 now else time_remaining_of period now

-- FormatCode
unfoldable pub format_code : Text → Text
format_code code =
    if length code == 6
    then take 3 code ++ 32 ∷ drop 3 code
    else if length code == 8
    then take 4 code ++ 32 ∷ drop 4 code
    else code

-- The padding of IsValidSecret.
unfoldable pub equals_signs : ℕ → Text
equals_signs zero = []
equals_signs (suc n) = 61 ∷ equals_signs n

unfoldable pub padded : Text → Text
padded s = if length s % 8 == 0 then s else s ++ equals_signs (8 - length s % 8)

module _ (upper lower : Text → Text) where
  -- The switch of StoredOptions.
  unfoldable pub stored_algorithm : Text → Algorithm
  stored_algorithm t =
      if text_eq (upper t) (text "SHA256")
      then sha256
      else if text_eq (upper t) (text "SHA512")
      then sha512
      else sha1

  -- StoredOptions
  unfoldable pub stored_options : ℤ → ℤ → Text → GenerateOptions
  stored_options period digits algorithm = record default_options {
    period = if is_positive period then magnitude period else 30;
    digits = if magnitude digits == 8 then 8 else 6;
    algorithm = stored_algorithm algorithm;
  }

  -- The algorithm that an otpauth URL sets.
  unfoldable pub url_algorithm : Text → Algorithm
  url_algorithm t =
      if text_eq (upper t) (text "SHA256")
      then sha256
      else if text_eq (upper t) (text "SHA512")
      then sha512
      else if text_eq (upper t) (text "MD5")
      then md5
      else sha1

  module _ (parse_url : Text → Option ParsedUrl) where
    -- ParseTOTPURL behind url.Parse.
    unfoldable pub options_of_url : ParsedUrl → Option (GenerateOptions × Text)
    options_of_url u =
        if not (text_eq u.scheme (text "otpauth") && text_eq u.host (text "totp"))
        then none
        else if is_blank (u.param (text "secret"))
        then none
        else some (
          record {
            issuer = u.param (text "issuer");
            account_name = without_slash u.path;
            period = url_period (u.param (text "period")) 30;
            digits = url_digits (u.param (text "digits")) 6;
            algorithm = url_algorithm (u.param (text "algorithm"));
          },
          u.param (text "secret"),
        )

    -- ParseTOTPURL
    unfoldable pub parse_totp_url : Text → Option (GenerateOptions × Text)
    parse_totp_url t = elim (parse_url t) [ none ↦ none | some u ↦ options_of_url u ]

    -- resolveSecret
    unfoldable pub resolve_secret : Text → GenerateOptions → Text × GenerateOptions
    resolve_secret secret opts =
        if has_prefix (text "otpauth://") (lower (trim secret))
        then elim (parse_totp_url (trim secret)) [
          | none ↦ (clean_secret upper (trim secret), opts)
          | some (url_opts, url_secret) ↦ (clean_secret upper url_secret, url_opts)
        ]
        else (clean_secret upper (trim secret), opts)

    -- IsValidSecret
    unfoldable pub is_valid_secret : (Text → Bool) → Text → Bool
    is_valid_secret is_base32 secret =
        let (s, opts) = resolve_secret secret default_options in
        not (is_blank s) && is_base32 (padded s)
