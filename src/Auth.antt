-- ===== src/Auth.antt =====
-- Accounts and sessions: what the handlers of backend/internal/api/handlers/auth.go, totp.go and
-- admin.go take from outside the sources, and the tokens of backend/internal/api/middleware/auth.go.
pub mod Sessions
pub mod Login
pub mod Rotation
pub mod Registration
pub mod TwoFactor
pub mod Checks
pub mod Invited
use passbubble.Prelude.{ℕ, ◌*◌, ◌+◌, String, Bool, false, Option, none, some, List, str_eq}

-- mw.Claims: `ttype` is "access", "refresh" or "2fa_pending"; `id` is the jti, absent in a pending
-- token.
pub record Token : Type 0 where
  pub id : Option ℕ
  pub user_id : ℕ
  pub role : String
  pub ttype : String
  pub issued_at : ℕ
  pub expires_at : ℕ

-- The libraries that a server calls, and its settings. `sign` and `parse` are jwt's SignedString
-- and ParseWithClaims with the server's secret, `parse` at a time; `token_hash` is tokenSHA256;
-- `hash_password` and `password_matches` are bcrypt's; `random_token` is what the request draws
-- from the random generator; `send` is the mailer, answering whether the mail went out;
-- `generate` and `validate` are totp's, `validate` at a time; `seal` and `open_sealed` are the
-- encryption of TOTP secrets at rest.
pub record Server : Type 0 where
  pub has_mailer : Bool
  pub admin_email : String
  pub sign : Token → Option String
  pub parse : ℕ → String → Option Token
  pub token_hash : String → String
  pub hash_password : String → Option String
  pub password_matches : String → String → Bool
  pub random_token : Option String
  pub send : String → String → Bool
  pub generate : String → Option (String × String)
  pub validate : ℕ → String → String → Bool
  pub seal : String → Option String
  pub open_sealed : String → Option String

-- 15 minutes, 7 days, 30 seconds, 5 minutes and 30 minutes, in seconds.
abbrev pub access_token_ttl : ℕ
access_token_ttl = 15 * 60

abbrev pub refresh_token_ttl : ℕ
refresh_token_ttl = 7 * 24 * 60 * 60

abbrev pub refresh_grace_period : ℕ
refresh_grace_period = 30

abbrev pub pending_token_ttl : ℕ
pending_token_ttl = 5 * 60

abbrev pub totp_recovery_ttl : ℕ
totp_recovery_ttl = 30 * 60

-- jwt.ParseWithClaims with the check of the token's type that follows it.
unfoldable pub parse_as : Server → ℕ → String → String → Option Token
parse_as server clock ttype text = elim (server.parse clock text) [
  | none ↦ none
  | some t ↦ elim (str_eq t.ttype ttype) [ false ↦ none | _ ↦ some t ]
]
