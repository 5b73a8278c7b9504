-- ===== src/Auth/Sessions.antt =====
-- Sessions of backend/internal/api/handlers/auth.go: issueTokens, Refresh and Logout.
use passbubble.Prelude.{
  ℕ, ◌+◌, String, Bool, not, ◌&&◌, ◌||◌, Option, none, some, [], ◌∷◌, ◌++◌, str_eq, ltb,
  if◌then◌else◌, min, update_where, delete_where, exists_where,
}
use passbubble.Store.{
  World, Db, Response, error, reply, SessionRow, ◌>>=◌, ◌>>◌, call, require, has_user, or_keep,
}
use passbubble.Auth.{Server, access_token_ttl, refresh_token_ttl, refresh_grace_period, parse_as}

-- models.LoginResponse.
pub record LoginResponse : Type 0 where
  pub access_token : String
  pub refresh_token : String
  pub expires_in : ℕ

-- signToken: `jti` is the UUID drawn for the token.
unfoldable pub sign_token : Server → ℕ → ℕ → ℕ → String → String → ℕ → Option String
sign_token server jti now user role ttype ttl = server.sign (record {
  id = some jti;
  user_id = user;
  role = role;
  ttype = ttype;
  issued_at = now;
  expires_at = now + ttl;
})

-- The session that a refresh token stands for.
unfoldable pub new_session : Server → World → ℕ → String → SessionRow
new_session server w user refresh = record {
  id = w.uuid 2;
  user_id = user;
  token_hash = server.token_hash refresh;
  expires_at = w.clock + refresh_token_ttl;
}

-- issueTokens. The UUIDs 0 and 1 are those of the tokens, 2 is that of the session; the database
-- call is number n. sessions.token_hash is unique.
unfoldable pub issue_tokens : Server → World → ℕ → ℕ → String → Db → Option (Db × LoginResponse)
issue_tokens server w n user role db = do
  access ← sign_token server (w.uuid 0) w.clock user role "access" access_token_ttl
  refresh ← sign_token server (w.uuid 1) w.clock user role "refresh" refresh_token_ttl
  call w n
  require (has_user db user)
  require (not (exists_where (λ s. str_eq s.token_hash (server.token_hash refresh)) db.sessions))
  some (
    record db { sessions = db.sessions ++ new_session server w user refresh ∷ [] },
    record { access_token = access; refresh_token = refresh; expires_in = access_token_ttl },
  )

-- token_hash = $1 AND expires_at > NOW()
unfoldable pub is_live : String → ℕ → SessionRow → Bool
is_live hash now s = str_eq s.token_hash hash && ltb now s.expires_at

-- SET expires_at = LEAST(expires_at, NOW() + grace)
unfoldable pub expire_soon : ℕ → SessionRow → SessionRow
expire_soon now s = record s { expires_at = min s.expires_at (now + refresh_grace_period) }

-- UPDATE sessions SET ... WHERE token_hash = $1, its error only logged.
unfoldable pub retire_session : World → ℕ → String → Db → Db
retire_session w n hash db = or_keep db do
  call w n
  some (record db {
    sessions = update_where (λ s. str_eq s.token_hash hash) (expire_soon w.now) db.sessions;
  })

-- Refresh, of a body that is `none` where it is no JSON.
unfoldable pub refresh : Server → World → Option String → Db → Db × Response LoginResponse
refresh server w none db = (db, error 400 "invalid request body")
refresh server w (some text) db = elim (parse_as server w.clock "refresh" text) [
  | none ↦ (db, error 401 "invalid or expired refresh token")
  | some claims ↦
      if w.fails 0
      then (db, error 500 "failed to check session")
      else if not (exists_where (is_live (server.token_hash text) w.now) db.sessions)
      then (db, error 401 "session expired or revoked")
      else elim (issue_tokens server w 1 claims.user_id claims.role db) [
        | none ↦ (db, error 500 "failed to issue tokens")
        | some (db', tokens) ↦ (retire_session w 2 (server.token_hash text) db', reply 200 tokens)
      ]
]

-- Logout. A body that is no JSON reads as one without a token.
unfoldable pub logout : Server → World → Option String → Db → Db × Response (Unit {0})
logout server w none db = (db, reply 204 tt)
logout server w (some text) db = if str_eq text "" || w.fails 0 then (db, reply 204 tt) else (
  record db {
    sessions = delete_where (λ s. str_eq s.token_hash (server.token_hash text)) db.sessions;
  },
  reply 204 tt,
)
