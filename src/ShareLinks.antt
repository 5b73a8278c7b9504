-- ===== src/ShareLinks.antt =====
-- Public share links, of backend/internal/api/handlers/share_links.go.
pub mod Views
use passbubble.Prelude.{
  ℕ, ◌+◌, String, Bool, true, false, not, ◌&&◌, ◌||◌, Option, none, some, [], ◌∷◌, ◌++◌, ◌==◌,
  str_eq, ltb, leb, if◌then◌else◌, is_some, update_where, delete_where, find_where, exists_where,
}
use passbubble.Store.{
  World, Db, Claims, Response, error, reply, ShareLinkRow, Bytes, ◌>>◌, call, require, or_keep,
  or_fail,
}

-- The key derivation of backend/pkg/crypto with its default costs, a fresh salt, and a fresh token
-- (generateShareLinkToken), which may fail; and time.Parse for RFC 3339.
pub record Links : Type 0 where
  pub derive_key : String → Bytes → Bytes
  pub random_salt : Option Bytes
  pub random_token : Option String
  pub parse_time : String → Option ℕ

-- A negative `max_views` is not told from 0: either lets nobody view the link.
pub record CreateShareLinkRequest : Type 0 where
  pub encrypted_payload : String
  pub payload_nonce : String
  pub password : String
  pub max_views : Option ℕ
  pub expires_at : String

-- A link is to an entry or to a folder.
pub data Target : Type 0 where
  entry : ℕ → Target
  folder : ℕ → Target

-- SELECT EXISTS(SELECT 1 FROM entries or folders WHERE id=$1 AND owner_id=$2)
unfoldable pub owns : Db → ℕ → Target → Bool
owns db user (entry e) = exists_where (λ r. r.id == e && r.owner_id == user) db.entries
owns db user (folder f) = exists_where (λ r. r.id == f && r.owner_id == user) db.folders

abbrev pub entry_target : Target → Option ℕ
entry_target (entry e) = some e
entry_target (folder f) = none

abbrev pub folder_target : Target → Option ℕ
folder_target (entry e) = none
folder_target (folder f) = some f

-- nullableBytes
abbrev pub nullable_bytes : Bytes → Option Bytes
nullable_bytes [] = none
nullable_bytes (b ∷ bs) = some (b ∷ bs)

-- The salt and the hash of a link's password, empty where it has none.
unfoldable pub password_columns : Links → String → Option (Bytes × Bytes)
password_columns links password =
    if str_eq password "" then some ([], []) else elim links.random_salt [
      | none ↦ none
      | some salt ↦ some (salt, links.derive_key password salt)
    ]

-- INSERT INTO share_links; share_links.token is unique. That the owner's resource is there, the
-- handler has seen.
unfoldable pub insert_link : World → ℕ → ShareLinkRow → Db → Option Db
insert_link w n link db = do
  call w n
  require (not (exists_where (λ l. str_eq l.token link.token) db.share_links))
  some (record db { share_links = db.share_links ++ link ∷ [] })

-- createShareLink behind the decoding of its request.
unfoldable pub create_link :
    Links
    → World
    → Claims
    → Target
    → CreateShareLinkRequest
    → ℕ
    → Bytes
    → Bytes
    → Db
    → Db × Response (ℕ × String)
create_link links w caller target req expires payload nonce db =
    if w.fails 0 || not (owns db caller.user_id target)
    then (db, error 403 "only owner can create share link")
    else elim (password_columns links req.password) [
      | none ↦ (db, error 500 "failed to create share link")
      | some (salt, hash) ↦ elim links.random_token [
        | none ↦ (db, error 500 "failed to create share link")
        | some token ↦
            or_fail db (error 500 "failed to create share link")
              (insert_link w 1
                (record {
                  id = w.uuid 0;
                  token = token;
                  owner_id = caller.user_id;
                  entry_id = entry_target target;
                  folder_id = folder_target target;
                  encrypted_payload = payload;
                  payload_nonce = nonce;
                  password_salt = nullable_bytes salt;
                  password_hash = nullable_bytes hash;
                  max_views = req.max_views;
                  view_count = 0;
                  expires_at = expires;
                  revoked_at = none;
                })
                db)
              λ db'. (db', reply 201 (w.uuid 0, token))
      ]
    ]

-- createShareLink
unfoldable pub create_share_link :
    Links
    → World
    → Claims
    → Target
    → Option CreateShareLinkRequest
    → Db
    → Db × Response (ℕ × String)
create_share_link links w caller target none db =
    (db, error 400 "encrypted_payload, payload_nonce, expires_at required")
create_share_link links w caller target (some req) db =
    if str_eq req.encrypted_payload "" || str_eq req.payload_nonce "" || str_eq req.expires_at ""
    then (db, error 400 "encrypted_payload, payload_nonce, expires_at required")
    else elim (links.parse_time req.expires_at) [
      | none ↦ (db, error 400 "invalid expires_at")
      | some expires ↦ elim (w.decode64 req.encrypted_payload) [
        | none ↦ (db, error 400 "invalid encrypted_payload")
        | some payload ↦ elim (w.decode64 req.payload_nonce) [
          | none ↦ (db, error 400 "invalid payload_nonce")
          | some nonce ↦ create_link links w caller target req expires payload nonce db
        ]
      ]
    ]

-- models.PublicShareLinkResponse: that a password is required, or the payload and its nonce.
pub data PublicLink : Type 0 where
  password_required : PublicLink
  payload : Bool → String → String → PublicLink

-- view_count >= max_views
abbrev pub used_up : ShareLinkRow → Bool
used_up l = elim l.max_views [ none ↦ false | some m ↦ leb m l.view_count ]

-- revoked, expired or used up
unfoldable pub is_dead : ℕ → ShareLinkRow → Bool
is_dead clock l = is_some l.revoked_at || ltb l.expires_at clock || used_up l

-- A column that is NULL scans as no bytes.
abbrev pub bytes_of : Option Bytes → Bytes
bytes_of none = []
bytes_of (some b) = b

-- subtle.ConstantTimeCompare
unfoldable pub same_bytes : Bytes → Bytes → Bool
same_bytes [] [] = true
same_bytes [] (c ∷ cs) = false
same_bytes (b ∷ bs) [] = false
same_bytes (b ∷ bs) (c ∷ cs) = let rest = same_bytes bs cs in if b == c then rest else false

abbrev pub has_password : ShareLinkRow → Bool
has_password l = elim (bytes_of l.password_hash) [ [] ↦ false | b ∷ bs ↦ true ]

unfoldable pub password_fits : Links → String → ShareLinkRow → Bool
password_fits links password l =
    same_bytes (links.derive_key password (bytes_of l.password_salt)) (bytes_of l.password_hash)

-- UPDATE share_links SET view_count = view_count + 1 WHERE id=$1, its error dropped.
unfoldable pub count_view : World → ℕ → ℕ → Db → Db
count_view w n id db = or_keep db do
  call w n
  some (record db {
    share_links =
        update_where (λ l. l.id == id) (λ l. record l { view_count = l.view_count + 1 })
          db.share_links;
  })

-- The payload is shown and the view is counted.
unfoldable pub show_link : World → ShareLinkRow → Db → Db × Response PublicLink
show_link w l db = (
  count_view w 1 l.id db,
  reply 200
      (payload (has_password l) (w.encode64 l.encrypted_payload) (w.encode64 l.payload_nonce)),
)

-- GetShareLink behind the query.
unfoldable pub open_link : Links → World → String → ShareLinkRow → Db → Db × Response PublicLink
open_link links w password l db =
    if is_dead w.clock l
    then (db, error 410 "share link expired or revoked")
    else if has_password l && str_eq password ""
    then (db, reply 200 password_required)
    else if has_password l && not (password_fits links password l)
    then (db, error 403 "invalid password")
    else show_link w l db

unfoldable pub link_by_token : String → Db → Option ShareLinkRow
link_by_token token db = find_where (λ l. str_eq l.token token) db.share_links

-- GetShareLink, with the password of its query, empty where it has none.
unfoldable pub get_share_link : Links → World → String → String → Db → Db × Response PublicLink
get_share_link links w token password db =
    if w.fails 0 then (db, error 404 "share link not found") else elim (link_by_token token db) [
      | none ↦ (db, error 404 "share link not found")
      | some l ↦ open_link links w password l db
    ]

abbrev pub own_link : ℕ → ℕ → ShareLinkRow → Bool
own_link id user l = l.id == id && l.owner_id == user

-- RevokeShareLink
unfoldable pub revoke_share_link : World → Claims → ℕ → Db → Db × Response (Unit {0})
revoke_share_link w caller id db =
    if w.fails 0 then (db, error 500 "failed to revoke share link") else (
      record db {
        share_links =
            update_where (own_link id caller.user_id) (λ l. record l { revoked_at = some w.now })
              db.share_links;
      },
      reply 204 tt,
    )

-- DeleteShareLink
unfoldable pub delete_share_link : World → Claims → ℕ → Db → Db × Response (Unit {0})
delete_share_link w caller id db =
    if w.fails 0 then (db, error 500 "failed to delete share link") else (
      record db { share_links = delete_where (own_link id caller.user_id) db.share_links },
      reply 204 tt,
    )
