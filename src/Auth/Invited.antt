-- ===== src/Auth/Invited.antt =====
-- Who can register, of backend/internal/api/handlers/auth.go.
use passbubble.Prelude.{
  ℕ, String, true, false, some, List, [], ◌∷◌, ◌++◌, str_eq, Option-cases, inl, inr, ◌<◌, ◌==◌,
  none, is_none, if◌then◌else◌, update_where, find_sound, ◌≡◌, ◌≢◌, refl, arith, Bool-cases,
  find_where, exists_where, length, ◌∙◌, ap, sym, subst,
}
use passbubble.Store.{
  World, Db, Response, reply, UserRow, InvitationRow, ◌>>=◌, Returns, Returns-bind, Returns-some,
}
use passbubble.Auth.{Server}
use passbubble.Auth.Sessions.{issue_tokens}
use passbubble.Auth.Registration.{
  RegisterRequest, Invitation, is_open, get_valid_invitation, role_of, initial_status, new_user,
  insert_user, accept_invitation, Registered, insert_token, finish_registration, register_checked,
  register,
}

-- One user more, with an email that none had, and the invitations but for the mark on one.
pub record Joins (server : Server) (w : World) (req : RegisterRequest) (inv : Invitation)
    (db db' : Db) : Type 0 where
  pub hash : String
  pub hashed : server.hash_password req.password ≡ some hash
  pub added : db'.users ≡ db.users ++ new_user server w req inv hash ∷ []
  pub unknown : exists_where (λ u. str_eq u.email req.email) db.users ≡ false
  pub invitations : db'.invitations ≡ (accept_invitation w 2 inv db).invitations

insert_user_lem :
    (server : Server) (w : World) (n : ℕ) (req : RegisterRequest) (inv : Invitation) (hash : String)
    (db db' : Db)
    → insert_user server w n req inv hash db ≡ some db'
    → (db' ≡ record db { users = db.users ++ new_user server w req inv hash ∷ [] })
      × (exists_where (λ u. str_eq u.email req.email) db.users ≡ false)
unfolding insert_user ◌>>=◌
insert_user_lem server w n req inv hash db db' h = ground (arith, h)

accept_invitation-users :
    (w : World) (n : ℕ) (inv : Invitation) (db : Db) (users : List UserRow)
    → accept_invitation w n inv (record db { users = users })
      ≡ record (accept_invitation w n inv db) { users = users }
unfolding accept_invitation ◌>>=◌
accept_invitation-users w n inv db users = ground arith

-- Tokens and sessions leave accounts and invitations alone.
pub record SameAccounts (a b : Db) : Type 0 where
  pub users : b.users ≡ a.users
  pub invitations : b.invitations ≡ a.invitations

issue_tokens-SameAccounts :
    (server : Server) (w : World) (n user : ℕ) (role : String) (db : Db)
    → Returns (λ r. SameAccounts db r.0) (issue_tokens server w n user role db)
unfolding issue_tokens
issue_tokens-SameAccounts server w n user role db = Returns-bind _ _ λ _ _. Returns-bind _ _ λ _ _.
    Returns-bind _ _ λ _ _.
      Returns-bind _ _
        λ _ _. Returns-bind _ _ λ _ _. Returns-some (record { users = refl; invitations = refl })

insert_token-SameAccounts :
    (w : World) (n user : ℕ) (token : String) (db : Db)
    → Returns (SameAccounts db) (insert_token w n user token db)
unfolding insert_token
insert_token-SameAccounts w n user token db = Returns-bind _ _ λ _ _.
    Returns-bind _ _
      λ _ _. Returns-bind _ _ λ _ _. Returns-some (record { users = refl; invitations = refl })

finish_registration-SameAccounts :
    (server : Server) (w : World) (req : RegisterRequest) (role : String) (db db' : Db)
    (r : Response Registered)
    → finish_registration server w req role db ≡ (db', r)
    → SameAccounts db db'
unfolding finish_registration
finish_registration-SameAccounts server w req role db db' r h =
    elim (Bool-cases server.has_mailer) [
      | inl m ↦ elim (Option-cases server.random_token) [
        | inl e ↦ record { users = ground arith; invitations = ground arith }
        | inr (token, e) ↦ elim (Option-cases (insert_token w 3 (w.uuid 3) token db)) [
          | inl e₁ ↦ record { users = ground arith; invitations = ground arith }
          | inr (d, e₁) ↦
              let s = (insert_token-SameAccounts w 3 (w.uuid 3) token db).at d e₁ in
              record {
                users = ground (arith, s.users);
                invitations = ground (arith, s.invitations);
              }
        ]
      ]
      | inr m ↦ elim (Option-cases (issue_tokens server w 3 (w.uuid 3) role db)) [
        | inl e ↦ record { users = ground arith; invitations = ground arith }
        | inr (d, e) ↦
            let s = (issue_tokens-SameAccounts server w 3 (w.uuid 3) role db).at d e in
            record { users = ground (arith, s.users); invitations = ground (arith, s.invitations) }
      ]
    ]

joined :
    (server : Server) (w : World) (req : RegisterRequest) (inv : Invitation) (hash : String) (s : ℕ)
    (db d db' : Db) (a : Registered)
    → server.hash_password req.password ≡ some hash
    → insert_user server w 1 req inv hash db ≡ some d
    → finish_registration server w req (role_of inv) (accept_invitation w 2 inv d)
      ≡ (db', reply s a)
    → Joins server w req inv db db'
joined server w req inv hash s db d db' a hashed inserted finished =
    let (new, unknown) = insert_user_lem server w 1 req inv hash db d inserted in
    let same =
      finish_registration-SameAccounts server w req (role_of inv) (accept_invitation w 2 inv d) db'
        _ finished in
    let marked = ap (accept_invitation w 2 inv) new ∙ accept_invitation-users w 2 inv db _ in
    record {
      hash = hash;
      hashed = hashed;
      added = same.users ∙ ap (λ (x : Db). x.users) marked;
      unknown = unknown;
      invitations = same.invitations ∙ ap (λ (x : Db). x.invitations) marked;
    }

-- An invitation that is valid though there are users is one of the table.
invited :
    (server : Server) (w : World) (token email : String) (db : Db) (inv : Invitation)
    → w.fails 0 ≡ false
    → length db.users ≢ 0
    → get_valid_invitation server w 0 token email db ≡ some inv
    → (i : InvitationRow) × (find_where (is_open w.now token email) db.invitations ≡ some i)
      × (inv ≡ record { id = some i.id; invited_by = i.invited_by })
unfolding get_valid_invitation
invited server w token email db inv counts users h =
    elim (Option-cases (find_where (is_open w.now token email) db.invitations)) [
      | inl e ↦ absurd (ground arith)
      | inr (i, e) ↦ (i, e, ground arith)
    ]

-- A registration that goes through: the invitation is valid, and the user joins.
register_checked-Joins :
    (server : Server) (w : World) (req : RegisterRequest) (s : ℕ) (db db' : Db) (a : Registered)
    → register_checked server w req db ≡ (db', reply s a)
    → (inv : Invitation) × (get_valid_invitation server w 0 req.invitation_token req.email db
        ≡ some inv)
      × Joins server w req inv db db'
unfolding register_checked
register_checked-Joins server w req s db db' a h =
    elim (Option-cases (get_valid_invitation server w 0 req.invitation_token req.email db)) [
      | inl e ↦ absurd (ground arith)
      | inr (inv, e) ↦ elim (Option-cases (server.hash_password req.password)) [
        | inl e₁ ↦ absurd (ground arith)
        | inr (hash, e₁) ↦ elim (Option-cases (insert_user server w 1 req inv hash db)) [
          | inl e₂ ↦ absurd (ground arith)
          | inr (d, e₂) ↦ (inv, e, joined server w req inv hash s db d db' a e₁ e₂ (ground arith))
        ]
      ]
    ]

-- The invitation is open and for the email; the user is new, of the role that the invitation stands
-- for, with the request's password and keys; and the invitation is marked, unless that call fails.
pub record Invited (server : Server) (w : World) (req : RegisterRequest) (i : InvitationRow)
    (u : UserRow) (db db' : Db) : Type 0 where
  pub token : str_eq i.token req.invitation_token ≡ true
  pub invited_email : str_eq i.email req.email ≡ true
  pub unused : i.accepted_at ≡ none
  pub live : w.now < i.expires_at
  pub added : db'.users ≡ db.users ++ u ∷ []
  pub unknown : exists_where (λ v. str_eq v.email req.email) db.users ≡ false
  pub email : u.email ≡ req.email
  pub role : u.role ≡ (if is_none i.invited_by then "admin" else "user")
  pub inviter : u.invited_by ≡ i.invited_by
  pub status : u.status ≡ (if server.has_mailer then "pending" else "active")
  pub password : server.hash_password req.password ≡ some u.password_hash
  pub public_keys : (u.pub_x25519 ≡ req.pub_x25519) × (u.pub_mlkem768 ≡ req.pub_mlkem768)
  pub private_keys :
      (u.enc_priv_x25519 ≡ req.enc_priv_x25519) × (u.enc_priv_mlkem768 ≡ req.enc_priv_mlkem768)
  pub salt : u.kdf_salt ≡ req.kdf_salt
  pub one_factor : u.totp_enabled ≡ false
  pub marked :
      w.fails 2 ≡ false
      → db'.invitations
        ≡ update_where
            (λ j. j.id == i.id)
            (λ j. record j { accepted_at = some w.now })
            db.invitations
  pub unmarked : w.fails 2 ≡ true → db'.invitations ≡ db.invitations

-- What a registration by invitation shows.
abbrev pub Redeems : Server → World → RegisterRequest → Db → Db → Type 0
Redeems server w req db db' =
    (i : InvitationRow) × (find_where (is_open w.now req.invitation_token req.email) db.invitations
      ≡ some i)
    × (u : UserRow) × Invited server w req i u db db'

abbrev invitation : InvitationRow → Invitation
invitation i = record { id = some i.id; invited_by = i.invited_by }

accept_invitation-marks :
    (w : World) (n : ℕ) (i : InvitationRow) (db : Db)
    → w.fails n ≡ false
    → (accept_invitation w n (invitation i) db).invitations
      ≡ update_where (λ j. j.id == i.id) (λ j. record j { accepted_at = some w.now }) db.invitations
unfolding accept_invitation ◌>>=◌
accept_invitation-marks w n i db ok = ground (arith, ok)

accept_invitation-fails :
    (w : World) (n : ℕ) (i : InvitationRow) (db : Db)
    → w.fails n ≡ true
    → (accept_invitation w n (invitation i) db).invitations ≡ db.invitations
unfolding accept_invitation ◌>>=◌
accept_invitation-fails w n i db failed = ground (arith, failed)

found_open :
    (now : ℕ) (token email : String) (i : InvitationRow)
    → is_open now token email i ≡ true
    → (str_eq i.token token ≡ true)
      × (str_eq i.email email ≡ true)
      × (i.accepted_at ≡ none)
      × (now < i.expires_at)
unfolding is_open
found_open now token email i h = elim (Option-cases i.accepted_at) [
  | inl e ↦ (ground arith, ground arith, e, ground arith)
  | inr (a, e) ↦ absurd (ground arith)
]

Joins-Invited :
    (server : Server) (w : World) (req : RegisterRequest) (db db' : Db) (i : InvitationRow)
    → is_open w.now req.invitation_token req.email i ≡ true
    → (joins : Joins server w req (invitation i) db db')
    → Invited server w req i (new_user server w req (invitation i) joins.hash) db db'
unfolding new_user role_of initial_status
Joins-Invited server w req db db' i is_valid joins =
    let (token, email, unused, live) = found_open w.now req.invitation_token req.email i is_valid in
    record {
      token = token;
      invited_email = email;
      unused = unused;
      live = live;
      added = joins.added;
      unknown = joins.unknown;
      email = refl;
      role = refl;
      inviter = refl;
      status = refl;
      password = joins.hashed;
      public_keys = (refl, refl);
      private_keys = (refl, refl);
      salt = refl;
      one_factor = refl;
      marked = λ ok. joins.invitations ∙ accept_invitation-marks w 2 i db ok;
      unmarked = λ failed. joins.invitations ∙ accept_invitation-fails w 2 i db failed;
    }

redeemed :
    (server : Server) (w : World) (req : RegisterRequest) (db db' : Db) (inv : Invitation)
    (i : InvitationRow)
    → find_where (is_open w.now req.invitation_token req.email) db.invitations ≡ some i
    → inv ≡ record { id = some i.id; invited_by = i.invited_by }
    → Joins server w req inv db db'
    → Redeems server w req db db'
redeemed server w req db db' inv i found same joins =
    let joins' = subst (λ (v : Invitation). Joins server w req v db db') same joins in
    let is_valid =
      find_sound (is_open w.now req.invitation_token req.email) db.invitations {a = i} found in
    (i, found, _, Joins-Invited server w req db db' i is_valid joins')

redeems :
    (server : Server) (w : World) (req : RegisterRequest) (db db' : Db) (inv : Invitation)
    → w.fails 0 ≡ false
    → length db.users ≢ 0
    → get_valid_invitation server w 0 req.invitation_token req.email db ≡ some inv
    → Joins server w req inv db db'
    → Redeems server w req db db'
redeems server w req db db' inv counts users e joins =
    let (i, found, same) = invited server w req.invitation_token req.email db inv counts users e in
    redeemed server w req db db' inv i found same joins

register-checked :
    (server : Server) (w : World) (req : RegisterRequest) (s : ℕ) (db db' : Db) (a : Registered)
    → register server w (some req) db ≡ (db', reply s a)
    → register_checked server w req db ≡ (db', reply s a)
unfolding register
register-checked server w req s db db' a h = ground arith

-- With a user in the table and a count that comes through, a registration that is not answered by
-- an error has redeemed an open invitation: one of the table with the token and the email, not
-- accepted yet and not expired. It adds one user with that email, which none had, with the
-- password's hash and the keys of the request, and of the role "admin" where the invitation names
-- no inviter, "user" where it names one; and the invitation is marked as accepted, unless that
-- call fails, where the invitations stay as they are.
pub register-by_invitation :
    (server : Server) (w : World) (req : RegisterRequest) (s : ℕ) (db db' : Db) (a : Registered)
    → w.fails 0 ≡ false
    → length db.users ≢ 0
    → register server w (some req) db ≡ (db', reply s a)
    → Redeems server w req db db'
register-by_invitation server w req s db db' a counts users h =
    let (inv, e, joins) =
      register_checked-Joins server w req s db db' a (register-checked server w req s db db' a h) in
    redeems server w req db db' inv counts users e joins

-- A failed count of the users reads as none, and makes an invitation that nobody issued.
uncounted :
    (server : Server) (w : World) (email : String) (db : Db) (inv : Invitation)
    → w.fails 0 ≡ true
    → get_valid_invitation server w 0 "" email db ≡ some inv
    → role_of inv ≡ "admin"
unfolding get_valid_invitation role_of
uncounted server w email db inv failed h = ground (arith, failed, h)

-- If the count of the users fails, then a registration without an invitation that is not answered by
-- an error makes an administrator, however many users there are.
pub register_uncounted :
    (server : Server) (w : World) (req : RegisterRequest) (s : ℕ) (db db' : Db) (a : Registered)
    → req.invitation_token ≡ ""
    → w.fails 0 ≡ true
    → register server w (some req) db ≡ (db', reply s a)
    → (u : UserRow) × (db'.users ≡ db.users ++ u ∷ []) × (u.role ≡ "admin")
unfolding new_user
register_uncounted server w req s db db' a plain failed h =
    let (inv, e, joins) =
      register_checked-Joins server w req s db db' a (register-checked server w req s db db' a h) in
    (
      new_user server w req inv joins.hash,
      joins.added,
      uncounted server w req.email db inv failed
          (ap (λ (t : String). get_valid_invitation server w 0 t req.email db) (sym plain) ∙ e),
    )
