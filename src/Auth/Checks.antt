-- ===== src/Auth/Checks.antt =====
-- What a sign-in of backend/internal/api/handlers/auth.go and totp.go has checked before it is
-- answered.
use passbubble.Prelude.{
  ℕ, ◌+◌, ◌++◌, [], ◌∷◌, String, true, false, none, some, refl, ap, ◌∙◌, str_eq, Option-cases, inl,
  inr, ◌≡◌, arith, Bool-cases,
}
use passbubble.Store.{World, Db, reply, UserRow, Returns, Returns-bind, Returns-some}
use passbubble.Auth.{
  Token, Server, parse_as, access_token_ttl, refresh_token_ttl, pending_token_ttl,
}
use passbubble.Auth.Sessions.{LoginResponse, sign_token, new_session, issue_tokens}
use passbubble.Auth.Login.{
  LoginRequest, LoginAnswer, session, second_factor, user_by_id, user_by_email, login_user, login,
  respond_with_session, issue_pending_token,
}
use passbubble.Auth.TwoFactor.{VerifyTotpRequest, verify_totp, verify_code, code_fits}

-- A session of the user is opened: the tokens answered are signed for the user, an access token and a
-- refresh token, and the sessions have one more, which the refresh token stands for.
pub record Opens (server : Server) (w : World) (user s : ℕ) (a : LoginAnswer) (db db' : Db)
    : Type 0 where
  pub tokens : LoginResponse
  pub row : UserRow
  pub status : s ≡ 200
  pub answer : a ≡ session tokens row
  pub own_row : user_by_id user db ≡ some row
  pub access :
      server.sign record {
        id = some (w.uuid 0);
        user_id = user;
        role = row.role;
        ttype = "access";
        issued_at = w.clock;
        expires_at = w.clock + access_token_ttl;
      }
      ≡ some tokens.access_token
  pub refresh :
      server.sign record {
        id = some (w.uuid 1);
        user_id = user;
        role = row.role;
        ttype = "refresh";
        issued_at = w.clock;
        expires_at = w.clock + refresh_token_ttl;
      }
      ≡ some tokens.refresh_token
  pub opened :
      db'.sessions
      ≡ db.sessions
        ++ record {
          id = w.uuid 2;
          user_id = user;
          token_hash = server.token_hash tokens.refresh_token;
          expires_at = w.clock + refresh_token_ttl;
        }
          ∷ []

-- Only a token of type 2fa_pending is answered, and nothing is written.
pub record AsksForCode (server : Server) (w : World) (u : UserRow) (s : ℕ) (a : LoginAnswer)
    (db db' : Db) : Type 0 where
  pub pending : String
  pub status : s ≡ 202
  pub answer : a ≡ second_factor pending pending_token_ttl
  pub signed :
      server.sign record {
        id = none;
        user_id = u.id;
        role = u.role;
        ttype = "2fa_pending";
        issued_at = w.clock;
        expires_at = w.clock + pending_token_ttl;
      }
      ≡ some pending
  pub unchanged : db' ≡ db

issue_tokens-Opens :
    (server : Server) (w : World) (n user : ℕ) (db : Db) (u : UserRow)
    → user_by_id user db ≡ some u
    → Returns
        (λ x. Opens server w user 200 (session x.1 u) db x.0)
        (issue_tokens server w n user u.role db)
unfolding issue_tokens sign_token new_session
issue_tokens-Opens server w n user db u found = Returns-bind _ _ λ access signed.
    Returns-bind _ _ λ refresh signed'. Returns-bind _ _ λ _ _. Returns-bind _ _ λ _ _.
      Returns-bind _ _ λ _ _. Returns-some record {
        tokens = record {
          access_token = access;
          refresh_token = refresh;
          expires_in = access_token_ttl;
        };
        row = u;
        status = refl;
        answer = refl;
        own_row = found;
        access = signed;
        refresh = signed';
        opened = refl;
      }

same_answer :
    (server : Server) (w : World) (user s : ℕ) (db d db' : Db) (a b : LoginAnswer)
    → s ≡ 200
    → a ≡ b
    → db' ≡ d
    → Opens server w user 200 b db d
    → Opens server w user s a db db'
same_answer server w user s db d db' a b status answer same opens = record {
  tokens = opens.tokens;
  row = opens.row;
  status = status;
  answer = answer ∙ opens.answer;
  own_row = opens.own_row;
  access = opens.access;
  refresh = opens.refresh;
  opened = ap (λ (x : Db). x.sessions) same ∙ opens.opened;
}

respond_with_session-Opens :
    (server : Server) (w : World) (n user s : ℕ) (db db' : Db) (a : LoginAnswer)
    → respond_with_session server w n user db ≡ (db', reply s a)
    → Opens server w user s a db db'
unfolding respond_with_session
respond_with_session-Opens server w n user s db db' a done =
    elim (Option-cases (user_by_id user db)) [
      | inl e ↦ absurd (ground arith)
      | inr (u, e) ↦ elim (Option-cases (issue_tokens server w (n + 1) user u.role db)) [
        | inl e₁ ↦ absurd (ground arith)
        | inr ((d, tokens), e₁) ↦
            same_answer server w user s db d db' a (session tokens u) (ground arith) (ground arith)
              (ground arith) ((issue_tokens-Opens server w (n + 1) user db u e).at (d, tokens) e₁)
      ]
    ]

-- What login_user has checked of the row, and what it does: it opens a session, or only asks for the
-- code where two-factor authentication is on.
pub record Checked (server : Server) (w : World) (password : String) (u : UserRow) (s : ℕ)
    (a : LoginAnswer) (db db' : Db) : Type 0 where
  pub is_active : str_eq u.status "active" ≡ true
  pub password_fits : server.password_matches u.password_hash password ≡ true
  pub asks : u.totp_enabled ≡ true → AsksForCode server w u s a db db'
  pub opens : u.totp_enabled ≡ false → Opens server w u.id s a db db'

login_user-Checked :
    (server : Server) (w : World) (password : String) (u : UserRow) (s : ℕ) (db db' : Db)
    (a : LoginAnswer)
    → login_user server w password u db ≡ (db', reply s a)
    → Checked server w password u s a db db'
unfolding login_user issue_pending_token
login_user-Checked server w password u s db db' a done = elim (Bool-cases u.totp_enabled) [
  | inl e ↦ elim (Option-cases (issue_pending_token server w u.id u.role)) [
    | inl e₁ ↦ absurd (ground arith)
    | inr (p, e₁) ↦ record {
      is_active = ground arith;
      password_fits = ground arith;
      asks = λ on. record {
        pending = p;
        status = ground arith;
        answer = ground arith;
        signed = e₁;
        unchanged = ground arith;
      };
      opens = λ off. absurd (ground arith);
    }
  ]
  | inr e ↦ record {
    is_active = ground arith;
    password_fits = ground arith;
    asks = λ on. absurd (ground arith);
    opens = λ off. respond_with_session-Opens server w 1 u.id s db db' a (ground arith);
  }
]

-- A login that is not answered by an error is one to the row that the email names, an active one
-- with the password. Where two-factor authentication is off, it is answered 200 with an access
-- and a refresh token signed for that user, and the sessions have one more, of the user and for
-- the refresh token; where it is on, it is answered 202 with only a token of type 2fa_pending for
-- the user, and the database is as before.
pub login-Checked :
    (server : Server) (w : World) (req : LoginRequest) (s : ℕ) (db db' : Db) (a : LoginAnswer)
    → login server w (some req) db ≡ (db', reply s a)
    → (u : UserRow) × (user_by_email req.email db ≡ some u)
      × Checked server w req.password u s a db db'
unfolding login
login-Checked server w req s db db' a done = elim (Option-cases (user_by_email req.email db)) [
  | inl e ↦ absurd (ground arith)
  | inr (u, e) ↦ (u, e, login_user-Checked server w req.password u s db db' a (ground arith))
]

-- What the second step has checked of the row.
pub record CodeChecked (server : Server) (clock : ℕ) (code : String) (u : UserRow) : Type 0 where
  pub is_enabled : u.totp_enabled ≡ true
  pub code_fits : code_fits server clock code u ≡ true

verify_code-Checked :
    (server : Server) (w : World) (code : String) (user s : ℕ) (db db' : Db) (a : LoginAnswer)
    → verify_code server w code user db ≡ (db', reply s a)
    → (u : UserRow) × (user_by_id user db ≡ some u) × CodeChecked server w.clock code u
unfolding verify_code
verify_code-Checked server w code user s db db' a done = elim (Option-cases (user_by_id user db)) [
  | inl e ↦ absurd (ground arith)
  | inr (u, e) ↦ (u, e, record { is_enabled = ground arith; code_fits = ground arith })
]

-- A second step that is not answered by an error presented a valid token of type 2fa_pending and a
-- code that fits the secret of the token's user, for whom two-factor authentication is on.
pub verify_totp-Checked :
    (server : Server) (w : World) (req : VerifyTotpRequest) (s : ℕ) (db db' : Db) (a : LoginAnswer)
    → verify_totp server w (some req) db ≡ (db', reply s a)
    → (t : Token) × (u : UserRow) × (server.parse w.clock req.pending_token ≡ some t)
      × (str_eq t.ttype "2fa_pending" ≡ true)
      × (user_by_id t.user_id db ≡ some u)
      × CodeChecked server w.clock req.code u
unfolding verify_totp parse_as
verify_totp-Checked server w req s db db' a done =
    elim (Option-cases (server.parse w.clock req.pending_token)) [
      | inl e ↦ absurd (ground arith)
      | inr (t, e) ↦
          let typed : str_eq t.ttype "2fa_pending" ≡ true = ground arith in
          let (u, found, checked) =
            verify_code-Checked server w req.code t.user_id s db db' a (ground arith) in
          (t, u, e, typed, found, checked)
    ]
