-- ===== src/Admin.antt =====
-- What administrators do, of backend/internal/api/handlers/admin.go, and the key material of
-- accounts, of backend/internal/api/handlers/users.go.
pub mod Demotion
use passbubble.Prelude.{
  ℕ, ◌+◌, ◌*◌, String, not, ◌&&◌, ◌||◌, Option, none, some, [], ◌∷◌, ◌++◌, ◌==◌, str_eq,
  if◌then◌else◌, update_where, delete_where, find_where, exists_where,
}
use passbubble.Store.{
  World, Db, Claims, Response, error, reply, UserRow, ◌>>◌, call, require, has_user, or_fail,
}
use passbubble.Auth.{Server}

-- INSERT INTO invitations; invitations.token is unique, the email is not.
unfoldable pub insert_invitation : World → ℕ → String → String → ℕ → Db → Option Db
insert_invitation w n email token inviter db = do
  call w n
  require (not (exists_where (λ i. str_eq i.token token) db.invitations))
  require (has_user db inviter)
  some (record db {
    invitations =
        db.invitations
        ++ record {
          id = w.uuid 0;
          email = email;
          token = token;
          invited_by = some inviter;
          expires_at = w.clock + 7 * 24 * 60 * 60;
          accepted_at = none;
        }
          ∷ [];
  })

-- InviteUser: the mail is sent where it can be; the answer names the invitation and its token.
unfoldable pub invite_user :
    Server → World → Claims → Option String → Db → Db × Response (ℕ × String)
invite_user server w caller none db = (db, error 400 "email required")
invite_user server w caller (some email) db =
    if str_eq email "" then (db, error 400 "email required") else elim server.random_token [
      | none ↦ (db, error 500 "failed to generate token")
      | some token ↦
          or_fail db (error 409 "invitation already exists for this email")
            (insert_invitation w 0 email token caller.user_id db)
            λ db'. (db', reply 201 (w.uuid 0, token))
    ]

pub record UpdateUserRequest : Type 0 where
  pub status : String
  pub role : String

-- CASE WHEN $2!='' THEN $2 ELSE status END, and the same for the role.
unfoldable pub patch_user : UpdateUserRequest → UserRow → UserRow
patch_user req u = record u {
  status = if str_eq req.status "" then u.status else req.status;
  role = if str_eq req.role "" then u.role else req.role;
}

-- UpdateUser
unfoldable pub update_user :
    World → Claims → ℕ → Option UpdateUserRequest → Db → Db × Response (Unit {0})
update_user w caller target req db =
    if target == caller.user_id
    then (db, error 400 "cannot modify own account via admin endpoint")
    else elim req [
      | none ↦ (db, error 400 "invalid request")
      | some r ↦ if w.fails 0 then (db, error 500 "failed to update user") else (
        record db { users = update_where (λ u. u.id == target) (patch_user r) db.users },
        reply 204 tt,
      )
    ]

-- DeleteInvitation: a path that is no UUID reads as none.
unfoldable pub delete_invitation : World → Option ℕ → Db → Db × Response (Unit {0})
delete_invitation w none db = (db, error 400 "invalid invitation id")
delete_invitation w (some id) db =
    if w.fails 0
    then (db, error 500 "failed to delete invitation")
    else if not (exists_where (λ i. i.id == id) db.invitations)
    then (db, error 404 "invitation not found")
    else (record db { invitations = delete_where (λ i. i.id == id) db.invitations }, reply 204 tt)

-- GetUserKeys: the public keys of an active user.
unfoldable pub get_user_keys : World → ℕ → Db → Response (String × String)
get_user_keys w target db =
    if w.fails 0
    then error 404 "user not found"
    else elim (find_where (λ u. u.id == target && str_eq u.status "active") db.users) [
      | none ↦ error 404 "user not found"
      | some u ↦ reply 200 (u.pub_x25519, u.pub_mlkem768)
    ]

pub record UpdateKeysRequest : Type 0 where
  pub pub_x25519 : String
  pub pub_mlkem768 : String
  pub enc_priv_x25519 : String
  pub enc_priv_mlkem768 : String

-- UpdateKeys
unfoldable pub update_keys :
    World → Claims → Option UpdateKeysRequest → Db → Db × Response (Unit {0})
update_keys w caller none db = (db, error 400 "invalid request body")
update_keys w caller (some req) db =
    if str_eq req.pub_x25519 ""
      || str_eq req.pub_mlkem768 ""
      || str_eq req.enc_priv_x25519 ""
      || str_eq req.enc_priv_mlkem768 ""
    then (db, error 400 "public and encrypted private keys are required")
    else if w.fails 0
    then (db, error 500 "failed to update keys")
    else if not (has_user db caller.user_id)
    then (db, error 404 "user not found")
    else (
      record db {
        users =
            update_where (λ u. u.id == caller.user_id)
              (λ u. record u {
                pub_x25519 = req.pub_x25519;
                pub_mlkem768 = req.pub_mlkem768;
                enc_priv_x25519 = req.enc_priv_x25519;
                enc_priv_mlkem768 = req.enc_priv_mlkem768;
              })
              db.users;
      },
      reply 204 tt,
    )
