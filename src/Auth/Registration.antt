-- ===== src/Auth/Registration.antt =====
-- Registration by invitation, of backend/internal/api/handlers/auth.go: getValidInvitation, Register
-- and VerifyEmail.
use passbubble.Prelude.{
  ℕ, ◌+◌, ◌*◌, String, Bool, true, false, not, ◌&&◌, ◌||◌, Option, none, some, [], ◌∷◌, ◌++◌, ◌==◌,
  str_eq, ltb, if◌then◌else◌, is_none, length, update_where, delete_where, find_where, exists_where,
}
use passbubble.Store.{
  World, Db, Response, error, reply, UserRow, InvitationRow, ◌>>◌, call, require, has_user, or_keep,
  or_fail,
}
use passbubble.Auth.{Server}
use passbubble.Auth.Sessions.{LoginResponse, issue_tokens}

pub record RegisterRequest : Type 0 where
  pub email : String
  pub name : String
  pub password : String
  pub invitation_token : String
  pub pub_x25519 : String
  pub pub_mlkem768 : String
  pub enc_priv_x25519 : String
  pub enc_priv_mlkem768 : String
  pub kdf_salt : String

-- invitationRow: an invitation redeemed, or none for the first user of all.
pub record Invitation : Type 0 where
  pub id : Option ℕ
  pub invited_by : Option ℕ

-- token=$1 AND email=$2 AND accepted_at IS NULL AND expires_at>NOW()
unfoldable pub is_open : ℕ → String → String → InvitationRow → Bool
is_open now token email i =
    str_eq i.token token && str_eq i.email email && is_none i.accepted_at && ltb now i.expires_at

-- getValidInvitation, whose query is call n; a failed count reads as no users.
unfoldable pub get_valid_invitation : Server → World → ℕ → String → String → Db → Option Invitation
get_valid_invitation server w n token email db =
    if str_eq token ""
    then (if w.fails n || length db.users == 0
        then (if not (str_eq server.admin_email "") && not (str_eq server.admin_email email)
            then none
            else some (record { id = none; invited_by = none }))
        else none)
    else if w.fails n
    then none
    else elim (find_where (is_open w.now token email) db.invitations) [
      | none ↦ none
      | some i ↦ some (record { id = some i.id; invited_by = i.invited_by })
    ]

-- The role and the status of a new account.
unfoldable pub role_of : Invitation → String
role_of inv = if is_none inv.invited_by then "admin" else "user"

unfoldable pub initial_status : Server → String
initial_status server = if server.has_mailer then "pending" else "active"

-- A column that is NULL or names a user.
abbrev pub inviter_known : Db → Option ℕ → Bool
inviter_known db none = true
inviter_known db (some u) = has_user db u

unfoldable pub new_user : Server → World → RegisterRequest → Invitation → String → UserRow
new_user server w req inv hash = record {
  id = w.uuid 3;
  email = req.email;
  name = req.name;
  role = role_of inv;
  status = initial_status server;
  password_hash = hash;
  invited_by = inv.invited_by;
  pub_x25519 = req.pub_x25519;
  pub_mlkem768 = req.pub_mlkem768;
  enc_priv_x25519 = req.enc_priv_x25519;
  enc_priv_mlkem768 = req.enc_priv_mlkem768;
  kdf_salt = req.kdf_salt;
  kdf_time = 3;
  kdf_memory = 65536;
  totp_secret = none;
  totp_enabled = false;
}

-- INSERT INTO users; users.email is unique.
unfoldable pub insert_user :
    Server → World → ℕ → RegisterRequest → Invitation → String → Db → Option Db
insert_user server w n req inv hash db = do
  call w n
  require (not (exists_where (λ u. str_eq u.email req.email) db.users))
  require (inviter_known db inv.invited_by)
  some (record db { users = db.users ++ new_user server w req inv hash ∷ [] })

-- UPDATE invitations SET accepted_at = NOW() WHERE id = $1, its error dropped.
unfoldable pub accept_invitation : World → ℕ → Invitation → Db → Db
accept_invitation w n inv db = elim inv.id [
  | none ↦ db
  | some id ↦ or_keep db do
    call w n
    some (record db {
      invitations =
          update_where (λ i. i.id == id) (λ i. record i { accepted_at = some w.now })
            db.invitations;
    })
]

-- What a registration answers: a session at once, or a mail to be confirmed.
pub data Registered : Type 0 where
  signed_in : LoginResponse → ℕ → String → Registered
  check_email : Registered

-- INSERT INTO email_verification_tokens
unfoldable pub insert_token : World → ℕ → ℕ → String → Db → Option Db
insert_token w n user token db = do
  call w n
  require (has_user db user)
  require (not (exists_where (λ t. str_eq t.token token) db.email_tokens))
  some (record db {
    email_tokens =
        db.email_tokens
        ++ record { user_id = user; token = token; expires_at = w.now + 24 * 60 * 60 } ∷ [];
  })

-- Register behind the new row: with a mailer it sends the token, without one it signs in.
unfoldable pub finish_registration :
    Server → World → RegisterRequest → String → Db → Db × Response Registered
finish_registration server w req role db =
    if server.has_mailer
    then elim server.random_token [
      | none ↦ (db, error 500 "internal error")
      | some token ↦
          or_fail db (error 500 "internal error") (insert_token w 3 (w.uuid 3) token db) λ db'.
            if server.send req.email token then (db', reply 202 check_email) else (
              db',
              error 201
                  "account created but verification email could not be sent — contact your administrator",
            )
    ]
    else elim (issue_tokens server w 3 (w.uuid 3) role db) [
      | none ↦ (db, error 500 "failed to issue tokens")
      | some (db', tokens) ↦ (db', reply 201 (signed_in tokens (w.uuid 3) role))
    ]

-- Register behind the checks of the request.
unfoldable pub register_checked : Server → World → RegisterRequest → Db → Db × Response Registered
register_checked server w req db =
    elim (get_valid_invitation server w 0 req.invitation_token req.email db) [
      | none ↦ (db, error 401 "invalid or expired invitation token")
      | some inv ↦ elim (server.hash_password req.password) [
        | none ↦ (db, error 500 "internal error")
        | some hash ↦
            or_fail db (error 409 "email already registered")
              (insert_user server w 1 req inv hash db)
              λ db'. finish_registration server w req (role_of inv) (accept_invitation w 2 inv db')
      ]
    ]

-- Register
unfoldable pub register : Server → World → Option RegisterRequest → Db → Db × Response Registered
register server w none db = (db, error 400 "invalid request body")
register server w (some req) db =
    if str_eq req.email "" || str_eq req.password "" || str_eq req.name ""
    then (db, error 400 "email, name, and password are required")
    else if str_eq req.pub_x25519 ""
        || str_eq req.pub_mlkem768 ""
        || str_eq req.enc_priv_x25519 ""
        || str_eq req.enc_priv_mlkem768 ""
    then (db, error 400 "public and encrypted private keys are required")
    else register_checked server w req db

-- UPDATE users SET status = 'active' WHERE id = $1
unfoldable pub activate : ℕ → Db → Db
activate user db = record db {
  users = update_where (λ u. u.id == user) (λ u. record u { status = "active" }) db.users;
}

-- VerifyEmail: the answer's body is a page.
unfoldable pub verify_email : World → String → Db → Db × Response (Unit {0})
verify_email w token db =
    if str_eq token "" || w.fails 0
    then (db, error 400 "Verification failed")
    else elim (find_where (λ t. str_eq t.token token && ltb w.now t.expires_at) db.email_tokens) [
      | none ↦ (db, error 400 "Verification failed")
      | some t ↦ if w.fails 1 then (db, error 500 "internal error") else (
        (or_keep (activate t.user_id db) do
          call w 2
          some (record (activate t.user_id db) {
            email_tokens = delete_where (λ r. str_eq r.token token) db.email_tokens;
          })),
        reply 200 tt,
      )
    ]
