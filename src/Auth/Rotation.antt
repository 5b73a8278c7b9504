-- ===== src/Auth/Rotation.antt =====
-- Refresh tokens of backend/internal/api/handlers/auth.go over several requests.
use passbubble.Prelude.{
  ℕ, ◌+◌, ◌≤◌, String, Bool, true, false, some, List, [], ◌∷◌, ◌++◌, str_eq, ltb, update_where,
  exists_where, Option-cases, inl, inr, ◌≡◌, refl, arith, ap, ◌∙◌, exists-append, eq_iff,
}
use passbubble.Store.{World, Db, reply, SessionRow, ◌>>=◌}
use passbubble.Auth.{Token, Server, refresh_grace_period, refresh_token_ttl, parse_as}
use passbubble.Auth.Sessions.{
  LoginResponse, sign_token, new_session, issue_tokens, is_live, expire_soon, retire_session,
  refresh,
}

-- A live session belongs to the token.
unfoldable pub live : Server → ℕ → String → Db → Bool
live server now text db = exists_where (is_live (server.token_hash text) now) db.sessions

-- A session retired now is dead once the grace period is over.
pub retired_is_dead :
    (hash : String) (now later : ℕ) (rows : List SessionRow)
    → now + refresh_grace_period ≤ later
    → exists_where
        (is_live hash later)
        (update_where (λ s. str_eq s.token_hash hash) (expire_soon now) rows)
      ≡ false
unfolding exists_where update_where is_live expire_soon
retired_is_dead hash now later [] over = refl
retired_is_dead hash now later (s ∷ rows) over =
    ground (arith, retired_is_dead hash now later rows over)

-- Other sessions are as live as before.
pub others_stay :
    (hash other : String) (now later : ℕ) (rows : List SessionRow)
    → str_eq other hash ≡ false
    → exists_where
        (is_live other later)
        (update_where (λ s. str_eq s.token_hash hash) (expire_soon now) rows)
      ≡ exists_where (is_live other later) rows
unfolding exists_where update_where is_live expire_soon
others_stay hash other now later [] ne = refl
others_stay hash other now later (s ∷ rows) ne = ground (
  arith,
  eq_iff s.token_hash other,
  eq_iff s.token_hash hash,
  others_stay hash other now later rows ne,
)

-- What issueTokens adds, where it succeeds: a session under a hash that no session had.
pub issue_tokens_lem :
    (server : Server) (w : World) (n user : ℕ) (role : String) (db db' : Db)
    (tokens : LoginResponse)
    → issue_tokens server w n user role db ≡ some (db', tokens)
    → (db'.sessions ≡ db.sessions ++ new_session server w user tokens.refresh_token ∷ [])
      × (exists_where
            (λ s. str_eq s.token_hash (server.token_hash tokens.refresh_token))
            db.sessions
          ≡ false)
unfolding issue_tokens sign_token ◌>>=◌
issue_tokens_lem server w n user role db db' tokens h = ground (arith, h)

-- A hash that no session has is not that of a live session.
live_has_hash :
    (hash other : String) (now : ℕ) (rows : List SessionRow)
    → exists_where (λ s. str_eq s.token_hash other) rows ≡ false
    → exists_where (is_live hash now) rows ≡ true
    → str_eq other hash ≡ false
unfolding exists_where is_live
live_has_hash hash other now [] none_has has = ground arith
live_has_hash hash other now (s ∷ rows) none_has has = ground (
  arith,
  eq_iff s.token_hash hash,
  eq_iff s.token_hash other,
  eq_iff other hash,
  live_has_hash hash other now rows,
)

new_session-live :
    (server : Server) (w : World) (user now : ℕ) (refresh : String)
    → is_live (server.token_hash refresh) now (new_session server w user refresh)
      ≡ ltb now (w.clock + refresh_token_ttl)
unfolding is_live new_session
new_session-live server w user now refresh =
    ground (arith, eq_iff (server.token_hash refresh) (server.token_hash refresh))

-- What a refresh answered 200 has done to the sessions.
pub record Rotates (server : Server) (w : World) (text : String) (db db' : Db)
    (tokens : LoginResponse) : Type 0 where
  pub was_live : live server w.now text db ≡ true
  pub old_dies :
      (later : ℕ) → w.now + refresh_grace_period ≤ later → live server later text db' ≡ false
  pub new_lives :
      (later : ℕ)
      → live server later tokens.refresh_token db' ≡ ltb later (w.clock + refresh_token_ttl)
  pub others_stay :
      (other : String) (later : ℕ)
      → str_eq (server.token_hash other) (server.token_hash text) ≡ false
      → str_eq (server.token_hash other) (server.token_hash tokens.refresh_token) ≡ false
      → live server later other db' ≡ live server later other db

retire_session_lem :
    (w : World) (n : ℕ) (hash : String) (db : Db)
    → w.fails n ≡ false
    → (retire_session w n hash db).sessions
      ≡ update_where (λ s. str_eq s.token_hash hash) (expire_soon w.now) db.sessions
unfolding retire_session ◌>>=◌
retire_session_lem w n hash db ok = ground (arith, ok)

-- No session is live under a hash that no session has.
no_hash_no_live :
    (hash : String) (now : ℕ) (rows : List SessionRow)
    → exists_where (λ s. str_eq s.token_hash hash) rows ≡ false
    → exists_where (is_live hash now) rows ≡ false
unfolding exists_where is_live
no_hash_no_live hash now [] h = refl
no_hash_no_live hash now (s ∷ rows) h = ground (arith, no_hash_no_live hash now rows)

other_session :
    (server : Server) (w : World) (user later : ℕ) (refresh hash : String)
    → str_eq hash (server.token_hash refresh) ≡ false
    → is_live hash later (new_session server w user refresh) ≡ false
unfolding is_live new_session
other_session server w user later refresh hash ne =
    ground (arith, eq_iff (server.token_hash refresh) hash, eq_iff hash (server.token_hash refresh))

append_none :
    (hash : String) (now : ℕ) (rows : List SessionRow) (s : SessionRow)
    → exists_where (is_live hash now) rows ≡ false
    → exists_where (is_live hash now) (rows ++ s ∷ []) ≡ is_live hash now s
unfolding exists_where
append_none hash now rows s h = ground (arith, exists-append (is_live hash now) rows (s ∷ []))

append_miss :
    (hash : String) (now : ℕ) (rows : List SessionRow) (s : SessionRow)
    → is_live hash now s ≡ false
    → exists_where (is_live hash now) (rows ++ s ∷ []) ≡ exists_where (is_live hash now) rows
unfolding exists_where
append_miss hash now rows s h = ground (arith, exists-append (is_live hash now) rows (s ∷ []))

-- The sessions after tokens are issued and the old session is retired.
rotated :
    (server : Server) (w : World) (user : ℕ) (role text : String) (db db₁ : Db)
    (tokens : LoginResponse)
    → w.fails 2 ≡ false
    → live server w.now text db ≡ true
    → issue_tokens server w 1 user role db ≡ some (db₁, tokens)
    → Rotates server w text db (retire_session w 2 (server.token_hash text) db₁) tokens
unfolding live
rotated server w user role text db db₁ tokens ok was e =
    let hash = server.token_hash text in
    let fresh = server.token_hash tokens.refresh_token in
    let (added, unused) = issue_tokens_lem server w 1 user role db db₁ tokens e in
    let ne = live_has_hash hash fresh w.now db.sessions unused was in
    let rows =
      retire_session_lem w 2 hash db₁ ok
      ∙ ap (update_where (λ s. str_eq s.token_hash hash) (expire_soon w.now)) added in
    record {
      was_live = was;
      old_dies = λ later over. rw rows (retired_is_dead hash w.now later _ over);
      new_lives = λ later. rw rows (
          others_stay hash fresh w.now later _ ne
          ∙ append_none fresh later db.sessions (new_session server w user tokens.refresh_token)
              (no_hash_no_live fresh later db.sessions unused)
          ∙ new_session-live server w user later tokens.refresh_token);
      others_stay = λ other later ne₁ ne₂. rw rows (
          others_stay hash (server.token_hash other) w.now later _ ne₁
          ∙ append_miss (server.token_hash other) later db.sessions
              (new_session server w user tokens.refresh_token)
              (other_session server w user later tokens.refresh_token (server.token_hash other)
                ne₂));
    }

-- What a refresh answered 200 has gone through.
refresh-steps :
    (server : Server) (w : World) (text : String) (db db' : Db) (tokens : LoginResponse)
    → refresh server w (some text) db ≡ (db', reply 200 tokens)
    → (claims : Token) × (db₁ : Db) × (issue_tokens server w 1 claims.user_id claims.role db
        ≡ some (db₁, tokens))
      × (live server w.now text db ≡ true)
      × (db' ≡ retire_session w 2 (server.token_hash text) db₁)
unfolding refresh live
refresh-steps server w text db db' tokens done =
    elim (Option-cases (parse_as server w.clock "refresh" text)) [
      | inl e ↦ absurd (ground arith)
      | inr (claims, e) ↦
          elim (Option-cases (issue_tokens server w 1 claims.user_id claims.role db)) [
            | inl e₁ ↦ absurd (ground arith)
            | inr ((db₁, tokens₁), e₁) ↦ (claims, db₁, ground arith, ground arith, ground arith)
          ]
    ]

-- If a refresh is answered 200 and the call that retires the presented token comes through, then the
-- presented token belonged to a live session, belongs to none from the end of the grace period on,
-- the new refresh token belongs to a live one until its seven days are over, and every other token,
-- that is one with another hash than these two, belongs to a live session exactly when it did before.
pub refresh-Rotates :
    (server : Server) (w : World) (text : String) (db db' : Db) (tokens : LoginResponse)
    → w.fails 2 ≡ false
    → refresh server w (some text) db ≡ (db', reply 200 tokens)
    → Rotates server w text db db' tokens
refresh-Rotates server w text db db' tokens ok done =
    let (claims, db₁, issued, was, after) = refresh-steps server w text db db' tokens done in
    rw after (rotated server w claims.user_id claims.role text db db₁ tokens ok was issued)
