-- ===== src/Tests/Accounts.antt =====
-- Witnesses for accounts and sessions.
use passbubble.Prelude.{
  String, true, false, none, some, [], ◌∷◌, str_eq, if◌then◌else◌, ◌≡◌, refl, find_where,
  exists_where,
}
use passbubble.Store.{Db, UserRow, SessionRow, InvitationRow, has_user, ◌>>=◌}
use passbubble.Auth.{Token, Server, parse_as}
use passbubble.Auth.Sessions.{LoginResponse, refresh, issue_tokens, sign_token, is_live}
use passbubble.Auth.Login.{
  LoginRequest, session, login, login_user, user_by_email, user_by_id, respond_with_session,
}
use passbubble.Auth.Registration.{
  RegisterRequest, register, register_checked, get_valid_invitation, is_open, insert_user, new_user,
  role_of, initial_status, accept_invitation, finish_registration, signed_in,
}
use passbubble.Auth.TwoFactor.{VerifyTotpRequest, verify_totp, verify_code, code_fits}
use passbubble.Auth.Rotation.{Rotates, refresh-Rotates}
use passbubble.Auth.Checks.{Checked, CodeChecked, login-Checked, verify_totp-Checked}
use passbubble.Prelude.{◌==◌, ◌++◌}
use passbubble.Store.{World}
use passbubble.Auth.Invited.{register_uncounted, Redeems, register-by_invitation}
use passbubble.Admin.{UpdateUserRequest, update_user}
use passbubble.Admin.Demotion.{refresh-after_update_user}
use passbubble.Tests.Data.{world_at, user_row, shared_db}

abbrev token_of : String → Token
token_of ttype = record {
  id = none;
  user_id = 1;
  role = "user";
  ttype = ttype;
  issued_at = 100;
  expires_at = 1000;
}

-- A token is signed as its type, and "old" is a refresh token of the first user.
abbrev test_server : Server
test_server = record {
  has_mailer = false;
  admin_email = "";
  sign = λ t. some t.ttype;
  parse = λ clock text.
      if str_eq text "old"
      then some (token_of "refresh")
      else if str_eq text "pending"
      then some (token_of "2fa_pending")
      else none;
  token_hash = λ text. text;
  hash_password = λ password. some "hash";
  password_matches = λ hash password. str_eq password "secret";
  random_token = some "random";
  send = λ email token. true;
  generate = λ email. none;
  validate = λ clock code secret. str_eq code "123456";
  seal = λ secret. some secret;
  open_sealed = λ sealed. some sealed;
}

abbrev session_row : SessionRow
session_row = record { id = 9; user_id = 1; token_hash = "old"; expires_at = 1000 }

abbrev session_db : Db
session_db = record shared_db { sessions = session_row ∷ [] }

abbrev new_tokens : LoginResponse
new_tokens = record { access_token = "access"; refresh_token = "refresh"; expires_in = 900 }

refresh-Rotates_example :
    Rotates test_server
      (world_at 200 900)
      "old"
      session_db
      (refresh test_server (world_at 200 900) (some "old") session_db).0
      new_tokens
unfolding refresh parse_as issue_tokens sign_token ◌>>=◌ has_user is_live exists_where
refresh-Rotates_example =
    refresh-Rotates test_server (world_at 200 900) "old" session_db _ new_tokens refl refl

abbrev login_request : LoginRequest
login_request = record { email = "a@x"; password = "secret" }

login-Checked_example :
    (u : UserRow) × (user_by_email "a@x" shared_db ≡ some u)
    × Checked test_server
        (world_at 200 900)
        "secret"
        u
        200
        (session new_tokens (user_row 1 "a@x"))
        shared_db
        (login test_server (world_at 200 900) (some login_request) shared_db).0
unfolding login login_user user_by_email user_by_id respond_with_session issue_tokens sign_token
    ◌>>=◌ has_user find_where exists_where
login-Checked_example =
    login-Checked test_server (world_at 200 900) login_request 200 shared_db _
      (session new_tokens (user_row 1 "a@x")) refl

abbrev two_factor_row : UserRow
two_factor_row = record (user_row 1 "a@x") { totp_secret = some "seed"; totp_enabled = true }

abbrev two_factor_db : Db
two_factor_db = record shared_db { users = two_factor_row ∷ [] }

abbrev verify_request : VerifyTotpRequest
verify_request = record { pending_token = "pending"; code = "123456" }

verify_totp-Checked_example :
    (t : Token) × (u : UserRow) × (test_server.parse 200 "pending" ≡ some t)
    × (str_eq t.ttype "2fa_pending" ≡ true)
    × (user_by_id t.user_id two_factor_db ≡ some u)
    × CodeChecked test_server 200 "123456" u
unfolding verify_totp verify_code code_fits parse_as user_by_id respond_with_session issue_tokens
    sign_token ◌>>=◌ has_user find_where exists_where
verify_totp-Checked_example =
    verify_totp-Checked test_server (world_at 200 900) verify_request 200 two_factor_db _
      (session new_tokens two_factor_row) refl

abbrev invitation_row : InvitationRow
invitation_row = record {
  id = 7;
  email = "c@x";
  token = "invited";
  invited_by = some 1;
  expires_at = 1000;
  accepted_at = none;
}

abbrev invited_db : Db
invited_db = record shared_db { invitations = invitation_row ∷ [] }

abbrev register_request : RegisterRequest
register_request = record {
  email = "c@x";
  name = "carol";
  password = "secret";
  invitation_token = "invited";
  pub_x25519 = "x";
  pub_mlkem768 = "m";
  enc_priv_x25519 = "ex";
  enc_priv_mlkem768 = "em";
  kdf_salt = "salt";
}

register-by_invitation_example :
    Redeems test_server
      (world_at 200 900)
      register_request
      invited_db
      (register test_server (world_at 200 900) (some register_request) invited_db).0
unfolding register register_checked get_valid_invitation is_open insert_user new_user role_of
    initial_status accept_invitation finish_registration issue_tokens sign_token ◌>>=◌ has_user
    find_where exists_where
register-by_invitation_example =
    register-by_invitation test_server (world_at 200 900) register_request 201 invited_db _
      (signed_in new_tokens 903 "user") refl (λ e. cc) refl

abbrev disabling : UpdateUserRequest
disabling = record { status = "disabled"; role = "" }

refresh-after_update_user_example :
    (refresh test_server
      (world_at 200 900)
      (some "old")
      (update_user
        (world_at 150 800)
        (record { user_id = 2; role = "admin" })
        1
        (some disabling)
        session_db).0).1
    ≡ (refresh test_server (world_at 200 900) (some "old") session_db).1
refresh-after_update_user_example =
    refresh-after_update_user test_server (world_at 150 800) (world_at 200 900)
      (record { user_id = 2; role = "admin" }) 1 (some disabling) (some "old") session_db

-- The world of a request in which the first call fails.
abbrev uncounting : World
uncounting = record (world_at 200 900) { fails = λ n. n == 0 }

abbrev uninvited : RegisterRequest
uninvited = record register_request { invitation_token = "" }

register_uncounted_example :
    (u : UserRow) × ((register test_server uncounting (some uninvited) shared_db).0.users
      ≡ shared_db.users ++ u ∷ [])
    × (u.role ≡ "admin")
unfolding register register_checked get_valid_invitation insert_user new_user role_of initial_status
    accept_invitation finish_registration issue_tokens sign_token ◌>>=◌ has_user exists_where
register_uncounted_example =
    register_uncounted test_server uncounting uninvited 201 shared_db _
      (signed_in new_tokens 903 "admin") refl refl refl
