-- ===== src/Auth/TwoFactor.antt =====
-- Two-factor authentication of an account, of backend/internal/api/handlers/totp.go.
use passbubble.Prelude.{
  ℕ, ◌+◌, String, Bool, true, false, not, ◌&&◌, ◌||◌, Option, none, some, [], ◌∷◌, ◌++◌, ◌==◌,
  str_eq, ltb, if◌then◌else◌, coalesce, update_where, delete_where, find_where, exists_where,
}
use passbubble.Store.{
  World, Db, Claims, Response, error, reply, UserRow, ◌>>◌, call, require, has_user, or_keep,
  or_fail,
}
use passbubble.Auth.{Server, totp_recovery_ttl, parse_as}
use passbubble.Auth.Login.{LoginAnswer, user_by_id, respond_with_session}

pub record ConfirmTotpRequest : Type 0 where
  pub secret : String
  pub code : String

pub record DisableTotpRequest : Type 0 where
  pub code : String
  pub password : String

pub record VerifyTotpRequest : Type 0 where
  pub pending_token : String
  pub code : String

-- SetupTOTP: the secret and its otpauth URL.
unfoldable pub setup_totp : Server → World → Claims → Db → Response (String × String)
setup_totp server w caller db =
    if w.fails 0 then error 404 "user not found" else elim (user_by_id caller.user_id db) [
      | none ↦ error 404 "user not found"
      | some u ↦ elim (server.generate u.email) [
        | none ↦ error 500 "failed to generate secret"
        | some key ↦ reply 200 key
      ]
    ]

-- UPDATE users SET totp_secret=..., totp_enabled=... WHERE id=$1
unfoldable pub set_totp : ℕ → Option String → Bool → Db → Db
set_totp user secret enabled db = record db {
  users =
      update_where (λ u. u.id == user)
        (λ u. record u { totp_secret = secret; totp_enabled = enabled }) db.users;
}

-- ConfirmTOTP
unfoldable pub confirm_totp :
    Server → World → Claims → Option ConfirmTotpRequest → Db → Db × Response (Unit {0})
confirm_totp server w caller none db = (db, error 400 "secret and code required")
confirm_totp server w caller (some req) db =
    if str_eq req.secret "" || str_eq req.code ""
    then (db, error 400 "secret and code required")
    else if not (server.validate w.clock req.code req.secret)
    then (db, error 400 "invalid code")
    else elim (server.seal req.secret) [
      | none ↦ (db, error 500 "failed to store secret")
      | some sealed ↦
          if w.fails 0
          then (db, error 500 "failed to enable 2fa")
          else (set_totp caller.user_id (some sealed) true db, reply 204 tt)
    ]

-- COALESCE(totp_secret, '') is a sealed secret to which the code belongs at the time.
unfoldable pub code_fits : Server → ℕ → String → UserRow → Bool
code_fits server clock code u = elim (server.open_sealed (coalesce u.totp_secret "")) [
  | none ↦ false
  | some secret ↦ server.validate clock code secret
]

-- DisableTOTP asks for a current code, or else for the password.
unfoldable pub may_disable : Server → ℕ → DisableTotpRequest → UserRow → Bool
may_disable server clock req u =
    not (str_eq req.code "")
      && not (str_eq (coalesce u.totp_secret "") "")
      && code_fits server clock req.code u
    || not (str_eq req.password "") && server.password_matches u.password_hash req.password

unfoldable pub disable_totp :
    Server → World → Claims → Option DisableTotpRequest → Db → Db × Response (Unit {0})
disable_totp server w caller none db = (db, error 400 "invalid request body")
disable_totp server w caller (some req) db =
    if w.fails 0 then (db, error 404 "user not found") else elim (user_by_id caller.user_id db) [
      | none ↦ (db, error 404 "user not found")
      | some u ↦
          if not u.totp_enabled
          then (db, reply 204 tt)
          else if not (may_disable server w.clock req u)
          then (db, error 403 "valid code or password required")
          else if w.fails 1
          then (db, error 500 "failed to disable 2fa")
          else (set_totp caller.user_id none false db, reply 204 tt)
    ]

-- VerifyTOTP behind the check of the pending token.
unfoldable pub verify_code : Server → World → String → ℕ → Db → Db × Response LoginAnswer
verify_code server w code user db =
    if w.fails 0 then (db, error 401 "2fa not configured") else elim (user_by_id user db) [
      | none ↦ (db, error 401 "2fa not configured")
      | some u ↦
          if not u.totp_enabled || str_eq (coalesce u.totp_secret "") ""
          then (db, error 401 "2fa not configured")
          else if not (code_fits server w.clock code u)
          then (db, error 401 "invalid code")
          else respond_with_session server w 1 user db
    ]

-- VerifyTOTP
unfoldable pub verify_totp :
    Server → World → Option VerifyTotpRequest → Db → Db × Response LoginAnswer
verify_totp server w none db = (db, error 400 "pending_token and code required")
verify_totp server w (some req) db =
    if str_eq req.pending_token "" || str_eq req.code ""
    then (db, error 400 "pending_token and code required")
    else elim (parse_as server w.clock "2fa_pending" req.pending_token) [
      | none ↦ (db, error 401 "invalid or expired pending token")
      | some claims ↦ verify_code server w req.code claims.user_id db
    ]

-- INSERT INTO totp_recovery_tokens
unfoldable pub insert_recovery : World → ℕ → ℕ → String → Db → Option Db
insert_recovery w n user token db = do
  call w n
  require (has_user db user)
  require (not (exists_where (λ t. str_eq t.token token) db.recovery_tokens))
  some (record db {
    recovery_tokens =
        db.recovery_tokens
        ++ record { user_id = user; token = token; expires_at = w.clock + totp_recovery_ttl } ∷ [];
  })

-- RequestTOTPRecovery: whether the mail went out is not told.
unfoldable pub request_totp_recovery :
    Server → World → Option String → Db → Db × Response (Unit {0})
request_totp_recovery server w none db = (db, error 400 "pending_token required")
request_totp_recovery server w (some pending) db =
    if str_eq pending ""
    then (db, error 400 "pending_token required")
    else elim (parse_as server w.clock "2fa_pending" pending) [
      | none ↦ (db, error 401 "invalid or expired pending token")
      | some claims ↦
          if w.fails 0 || not (has_user db claims.user_id)
          then (db, error 404 "user not found")
          else elim server.random_token [
            | none ↦ (db, error 500 "failed to create recovery token")
            | some token ↦
                or_fail db (error 500 "failed to create recovery token")
                  (insert_recovery w 1 claims.user_id token db) λ db'. (db', reply 204 tt)
          ]
    ]

-- ResetTOTP: the answer's body is a page.
unfoldable pub reset_totp : World → String → Db → Db × Response (Unit {0})
reset_totp w token db =
    if str_eq token "" || w.fails 0
    then (db, error 400 "Reset link invalid")
    else elim (find_where (λ t. str_eq t.token token && ltb w.now t.expires_at)
        db.recovery_tokens) [
          | none ↦ (db, error 400 "Reset link invalid")
          | some t ↦ if w.fails 1 then (db, error 500 "internal error") else (
            (or_keep (set_totp t.user_id none false db) do
              call w 2
              some (record (set_totp t.user_id none false db) {
                recovery_tokens = delete_where (λ r. r.user_id == t.user_id) db.recovery_tokens;
              })),
            reply 200 tt,
          )
        ]
