-- ===== src/Auth/Login.antt =====
-- Signing in, of backend/internal/api/handlers/auth.go: Login, respondWithSession and Me; and what
-- the middleware of backend/internal/api/middleware/auth.go lets through.
use passbubble.Prelude.{
  ℕ, ◌+◌, String, not, ◌||◌, Option, none, some, ◌==◌, str_eq, if◌then◌else◌, find_where,
}
use passbubble.Store.{World, Db, Claims, Response, error, reply, UserRow}
use passbubble.Auth.{Server, pending_token_ttl, parse_as}
use passbubble.Auth.Sessions.{LoginResponse, issue_tokens}

pub record LoginRequest : Type 0 where
  pub email : String
  pub password : String

-- The login payload: the tokens and the user's row, of which it names the email, the name, the
-- role, the keys and the KDF parameters; or the pending token of a login that needs a code.
pub data LoginAnswer : Type 0 where
  session : LoginResponse → UserRow → LoginAnswer
  second_factor : String → ℕ → LoginAnswer

unfoldable pub user_by_id : ℕ → Db → Option UserRow
user_by_id id db = find_where (λ u. u.id == id) db.users

unfoldable pub user_by_email : String → Db → Option UserRow
user_by_email email db = find_where (λ u. str_eq u.email email) db.users

-- respondWithSession, whose query is call n.
unfoldable pub respond_with_session : Server → World → ℕ → ℕ → Db → Db × Response LoginAnswer
respond_with_session server w n user db =
    if w.fails n then (db, error 500 "failed to load user") else elim (user_by_id user db) [
      | none ↦ (db, error 500 "failed to load user")
      | some u ↦ elim (issue_tokens server w (n + 1) user u.role db) [
        | none ↦ (db, error 500 "failed to issue tokens")
        | some (db', tokens) ↦ (db', reply 200 (session tokens u))
      ]
    ]

-- issuePendingToken
unfoldable pub issue_pending_token : Server → World → ℕ → String → Option String
issue_pending_token server w user role = server.sign (record {
  id = none;
  user_id = user;
  role = role;
  ttype = "2fa_pending";
  issued_at = w.clock;
  expires_at = w.clock + pending_token_ttl;
})

-- What Login does with the user that it found.
unfoldable pub login_user : Server → World → String → UserRow → Db → Db × Response LoginAnswer
login_user server w password u db =
    if str_eq u.status "pending"
    then (db, error 403 "email not verified — check your inbox")
    else if not (str_eq u.status "active")
    then (db, error 403 "account disabled")
    else if not (server.password_matches u.password_hash password)
    then (db, error 401 "invalid credentials")
    else if u.totp_enabled
    then elim (issue_pending_token server w u.id u.role) [
      | none ↦ (db, error 500 "failed to start 2fa")
      | some pending ↦ (db, reply 202 (second_factor pending pending_token_ttl))
    ]
    else respond_with_session server w 1 u.id db

-- Login
unfoldable pub login : Server → World → Option LoginRequest → Db → Db × Response LoginAnswer
login server w none db = (db, error 400 "email and password required")
login server w (some req) db =
    if str_eq req.email "" || str_eq req.password ""
    then (db, error 400 "email and password required")
    else if w.fails 0
    then (db, error 401 "invalid credentials")
    else elim (user_by_email req.email db) [
      | none ↦ (db, error 401 "invalid credentials")
      | some u ↦ login_user server w req.password u db
    ]

-- Me
unfoldable pub me : World → Claims → Db → Response UserRow
me w caller db =
    if w.fails 0 then error 404 "user not found" else elim (user_by_id caller.user_id db) [
      | none ↦ error 404 "user not found"
      | some u ↦ reply 200 u
    ]

-- JWTAuth: the token of the request is the empty text where it carries none.
unfoldable pub jwt_auth : Server → ℕ → String → Response Claims
jwt_auth server clock text =
    if str_eq text ""
    then error 401 "missing authorization"
    else elim (parse_as server clock "access" text) [
      | none ↦ error 401 "invalid or expired token"
      | some t ↦ reply 200 (record { user_id = t.user_id; role = t.role })
    ]

-- AdminJWT: JWTAuth, then AdminOnly.
unfoldable pub admin_jwt : Server → ℕ → String → Response Claims
admin_jwt server clock text = elim (jwt_auth server clock text) [
  | error s msg ↦ error s msg
  | reply s c ↦ if str_eq c.role "admin" then reply s c else error 403 "forbidden"
]
