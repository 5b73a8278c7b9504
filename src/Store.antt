-- ===== src/Store.antt =====
-- The database that the handlers of backend/internal/api/handlers share, what one request sees of
-- the world outside, and what a handler answers. The rows stand in `Rows`.
mod Rows
pub use Rows.*
use passbubble.Prelude.{
  subst, ℕ, String, Bool, true, false, ◌&&◌, ◌||◌, Option, none, some, List, [], ◌∷◌, ◌++◌, ◌==◌,
  str_eq, if◌then◌else◌, exists_where, find_where, update_where, ◌≡◌, ◌≢◌, refl, arith,
  find-update_disjoint, find-append,
}

pub record Db : Type 0 where
  pub users : List UserRow
  pub invitations : List InvitationRow
  pub sessions : List SessionRow
  pub email_tokens : List TokenRow
  pub recovery_tokens : List TokenRow
  pub folders : List FolderRow
  pub folder_permissions : List PermissionRow
  pub entries : List EntryRow
  pub entry_keys : List KeyRow
  pub entry_permissions : List PermissionRow
  pub versions : List VersionRow
  pub version_keys : List KeyRow
  pub share_links : List ShareLinkRow

-- What the world outside answers during one request: NOW() of the database, time.Now() of the
-- server, which of the request's database calls fail, after how many rows the reading of a call's
-- result breaks off, the UUIDs it draws, and base64.
pub record World : Type 0 where
  pub now : ℕ
  pub clock : ℕ
  pub fails : ℕ → Bool
  pub breaks : ℕ → Option ℕ
  pub uuid : ℕ → ℕ
  pub decode64 : String → Option Bytes
  pub encode64 : Bytes → String

-- The claims of the caller's access token.
pub record Claims : Type 0 where
  pub user_id : ℕ
  pub role : String

-- An id in a request body: any text, that the database reads as a UUID or refuses. `uuid` is the
-- spelling that the server writes itself, `respelled` any other of the same UUID (PostgreSQL takes
-- capitals, braces and missing dashes).
pub data IdText : Type 0 where
  blank : IdText
  malformed : IdText
  uuid : ℕ → IdText
  respelled : ℕ → IdText

-- The UUID that the database reads.
abbrev pub read_uuid : IdText → Option ℕ
read_uuid (uuid u) = some u
read_uuid (respelled u) = some u
read_uuid _ = none

-- respondErr, or a status with a body; the status 204 has the body `tt`.
pub data Response {ℓ} (A : Type ℓ) : Type ℓ where
  error : ℕ → String → Response A
  reply : ℕ → A → Response A

infixl 5 ◌>>=◌ ◌>>◌
-- A chain of statements, each of which may fail.
unfoldable pub ◌>>=◌ {ℓ κ} : {A : Type ℓ} {B : Type κ} → Option A → (A → Option B) → Option B
none >>= f = none
some a >>= f = f a

abbrev pub ◌>>◌ {ℓ} : {B : Type ℓ} → Option (Unit {0}) → Option B → Option B
m >> k = m >>= λ _. k

-- The request's database call number `n` comes through.
abbrev pub call : World → ℕ → Option (Unit {0})
call w n = if w.fails n then none else some tt

-- A foreign key holds, or a row is there.
abbrev pub require : Bool → Option (Unit {0})
require true = some tt
require false = none

abbrev pub is_id_text_blank : IdText → Bool
is_id_text_blank blank = true
is_id_text_blank _ = false

module _ (db : Db) where
  unfoldable pub has_user : ℕ → Bool
  has_user u = exists_where (λ r. r.id == u) db.users

  unfoldable pub has_folder : ℕ → Bool
  has_folder f = exists_where (λ r. r.id == f) db.folders

  unfoldable pub has_entry : ℕ → Bool
  has_entry e = exists_where (λ r. r.id == e) db.entries

  -- A user named in a request: the text must be the UUID of a user, by the foreign key.
  unfoldable pub user_ref : IdText → Option ℕ
  user_ref text = elim (read_uuid text) [
    | none ↦ none
    | some u ↦ if has_user u then some u else none
  ]

  -- An optional folder named in a request: NULL, or the UUID of a folder.
  unfoldable pub folder_ref : Option IdText → Option (Option ℕ)
  folder_ref none = some none
  folder_ref (some text) = elim (read_uuid text) [
    | none ↦ none
    | some f ↦ if has_folder f then some (some f) else none
  ]

-- The text is one of the listed ones (SQL's IN, Go's map of allowed words).
unfoldable pub contains : String → List String → Bool
contains s [] = false
contains s (t ∷ ts) = let rest = contains s ts in if str_eq s t then true else rest

-- The row of `entry_permissions` or `folder_permissions` for a resource and a user.
abbrev pub of_user : ℕ → ℕ → PermissionRow → Bool
of_user resource user p = p.resource == resource && p.user_id == user

-- The row of `entry_keys` or `entry_version_keys` for a holder and a user.
abbrev pub key_of : ℕ → ℕ → KeyRow → Bool
key_of holder user k = k.holder == holder && k.user_id == user

-- INSERT ... ON CONFLICT (entry_id, user_id) DO UPDATE SET encrypted_key = EXCLUDED.encrypted_key
unfoldable pub put_key : ℕ → ℕ → Bytes → List KeyRow → List KeyRow
put_key holder user key rows =
    if exists_where (key_of holder user) rows
    then update_where (key_of holder user) (λ r. record r { encrypted_key = key }) rows
    else rows ++ record { holder = holder; user_id = user; encrypted_key = key } ∷ []

-- INSERT ... ON CONFLICT (resource, user_id) DO UPDATE SET permission = EXCLUDED.permission
unfoldable pub put_permission : ℕ → ℕ → String → Option ℕ → List PermissionRow → List PermissionRow
put_permission resource user perm granter rows =
    if exists_where (of_user resource user) rows
    then update_where (of_user resource user) (λ r. record r { permission = perm }) rows
    else rows
      ++ record { resource = resource; user_id = user; permission = perm; granted_by = granter }
        ∷ []

-- A failed statement outside a transaction changes nothing, and its error is dropped.
abbrev pub or_keep : Db → Option Db → Db
or_keep db none = db
or_keep db (some db') = db'

-- `if err != nil { respondErr(...); return }`: a failed statement, or a transaction that is rolled
-- back, leaves the database as it was.
abbrev pub or_fail {ℓ} :
    {A : Type ℓ} → Db → Response A → Option Db → (Db → Db × Response A) → Db × Response A
or_fail db failed none next = (db, failed)
or_fail db failed (some db') next = next db'

-- What concerns one holder is untouched by a key put for another.
pub find-put_key_other :
    (e u holder user : ℕ) (key : Bytes) (rows : List KeyRow)
    → e ≢ holder
    → find_where (key_of e u) (put_key holder user key rows) ≡ find_where (key_of e u) rows
unfolding put_key find_where
find-put_key_other e u holder user key rows ne = ground (
  arith,
  find-update_disjoint (key_of e u) (key_of holder user)
      (λ (r : KeyRow). record r { encrypted_key = key }) rows (λ r. refl) (λ r h. ground arith),
  find-append (key_of e u) rows
      (record { holder = holder; user_id = user; encrypted_key = key } ∷ []),
)

pub find-put_permission_other :
    (e u resource user : ℕ) (perm : String) (granter : Option ℕ) (rows : List PermissionRow)
    → e ≢ resource
    → find_where (of_user e u) (put_permission resource user perm granter rows)
      ≡ find_where (of_user e u) rows
unfolding put_permission find_where
find-put_permission_other e u resource user perm granter rows ne = ground (
  arith,
  find-update_disjoint (of_user e u) (of_user resource user)
      (λ (r : PermissionRow). record r { permission = perm }) rows (λ r. refl)
      (λ r h. ground arith),
  find-append (of_user e u) rows (
      record { resource = resource; user_id = user; permission = perm; granted_by = granter } ∷ []),
)

-- A property of what a chain of statements returns, where it returns.
pub record Returns {ℓ κ} {A : Type ℓ} (P : A → Type κ) (m : Option A) : Type (ℓ ⊔ κ) where
  pub at : (a : A) → m ≡ some a → P a

module _ {ℓ μ} {B : Type ℓ} {P : B → Type μ} where
  pub Returns-some : {b : B} → P b → Returns P (some b)
  Returns-some {b} h = record { at = λ a e. subst P (ground arith) h }

  pub Returns-none : Returns P none
  Returns-none = record { at = λ a e. cc }

  pub Returns-bind {κ} :
      {A : Type κ} (m : Option A) (f : A → Option B)
      → ((a : A) → m ≡ some a → Returns P (f a))
      → Returns P (m >>= f)
  unfolding ◌>>=◌
  Returns-bind none f h = Returns-none
  Returns-bind (some a) f h = h a refl

  pub Returns-if :
      (b : Bool) (m n : Option B) → Returns P m → Returns P n → Returns P (if b then m else n)
  Returns-if true m n hm hn = hm
  Returns-if false m n hm hn = hn
