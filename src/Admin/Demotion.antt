-- ===== src/Admin/Demotion.antt =====
-- What a change of an account by an administrator (backend/internal/api/handlers/admin.go) means for
-- the sessions that the account has (auth.go).
use passbubble.Prelude.{
  ℕ, String, Option, none, some, List, [], ◌∷◌, ◌==◌, Option-cases, inl, inr, ◌≡◌, refl, arith,
  exists_where, update_where,
}
use passbubble.Store.{World, Db, Claims, UserRow, has_user, ◌>>=◌}
use passbubble.Auth.{Server, parse_as}
use passbubble.Auth.Sessions.{LoginResponse, issue_tokens, refresh}
use passbubble.Admin.{UpdateUserRequest, patch_user, update_user}

exists-update_id :
    (u target : ℕ) (req : UpdateUserRequest) (rows : List UserRow)
    → exists_where (λ r. r.id == u) (update_where (λ r. r.id == target) (patch_user req) rows)
      ≡ exists_where (λ r. r.id == u) rows
unfolding exists_where update_where patch_user
exists-update_id u target req [] = refl
exists-update_id u target req (r ∷ rows) = ground (arith, exists-update_id u target req rows)

-- A change of an account leaves the sessions and who is known.
pub record SameSessions (a b : Db) : Type 0 where
  pub sessions : b.sessions ≡ a.sessions
  pub known : (u : ℕ) → has_user b u ≡ has_user a u

update_user-SameSessions :
    (w : World) (caller : Claims) (target : ℕ) (req : Option UpdateUserRequest) (db : Db)
    → SameSessions db (update_user w caller target req db).0
unfolding update_user has_user
update_user-SameSessions w caller target none db = record {
  sessions = ground arith;
  known = λ u. ground arith;
}
update_user-SameSessions w caller target (some r) db = record {
  sessions = ground arith;
  known = λ u. ground (arith, exists-update_id u target r db.users);
}

abbrev tokens_of : Option (Db × LoginResponse) → Option LoginResponse
tokens_of none = none
tokens_of (some (db, tokens)) = some tokens

-- The answers, and that there is an answer, rest on the sessions and the known users only.
issue_tokens-same :
    (server : Server) (w : World) (n user : ℕ) (role : String) (a b : Db)
    → SameSessions a b
    → tokens_of (issue_tokens server w n user role b)
      ≡ tokens_of (issue_tokens server w n user role a)
unfolding issue_tokens ◌>>=◌
issue_tokens-same server w n user role a b same = ground (arith, same.sessions, same.known user)

-- Disabling or demoting an account takes no session from it: a refresh with any token is answered
-- after UpdateUser as it would have been before.
pub refresh-after_update_user :
    (server : Server) (w later : World) (caller : Claims) (target : ℕ)
    (req : Option UpdateUserRequest) (body : Option String) (db : Db)
    → (refresh server later body (update_user w caller target req db).0).1
      ≡ (refresh server later body db).1
unfolding refresh
refresh-after_update_user server w later caller target req none db = refl
refresh-after_update_user server w later caller target req (some text) db =
    let same = update_user-SameSessions w caller target req db in
    elim (Option-cases (parse_as server later.clock "refresh" text)) [
      | inl e ↦ ground arith
      | inr (t, e) ↦
          ground (arith, same.sessions, issue_tokens-same server later 1 t.user_id t.role db _ same)
    ]
