-- ===== src/Entries/SelfSharing.antt =====
-- An owner who shares an entry with themselves, by ShareEntry of
-- backend/internal/api/handlers/entries.go.
use passbubble.Prelude.{
  ℕ, String, true, false, ◌&&◌, Option, some, List, [], ◌∷◌, ◌++◌, str_eq, ◌≡◌, refl, sym, arith,
  ◌∙◌, ap, update_where, exists_where, exists-append, Option-cases, Bool-cases, inl, inr,
}
use passbubble.Store.{
  World, Db, Claims, IdText, uuid, PermissionRow, reply, of_user, contains, put_permission,
  user_ref, has_user, has_entry, ◌>>=◌,
}
use passbubble.Entries.{ShareEntryRequest, upsert_key, grant, share_entry}
use passbubble.Entries.Access.{entry_perm}

-- The row of a user after INSERT ... ON CONFLICT DO UPDATE holds the new permission only.
put_permission_only :
    (entry user : ℕ) (perm : String) (granter : Option ℕ) (perms : List String)
    (rows : List PermissionRow)
    → contains perm perms ≡ false
    → exists_where
        (λ p. of_user entry user p && contains p.permission perms)
        (update_where
          (of_user entry user)
          (λ (r : PermissionRow). record r { permission = perm })
          rows)
      ≡ false
unfolding exists_where update_where
put_permission_only entry user perm granter perms [] lacks = refl
put_permission_only entry user perm granter perms (p ∷ rows) lacks =
    ground (arith, put_permission_only entry user perm granter perms rows lacks)

no_row_no_permission :
    (entry user : ℕ) (perms : List String) (rows : List PermissionRow)
    → exists_where (of_user entry user) rows ≡ false
    → exists_where (λ p. of_user entry user p && contains p.permission perms) rows ≡ false
unfolding exists_where
no_row_no_permission entry user perms [] h = refl
no_row_no_permission entry user perms (p ∷ rows) h =
    ground (arith, no_row_no_permission entry user perms rows)

append_other :
    (entry user : ℕ) (perms : List String) (rows : List PermissionRow) (p : PermissionRow)
    → exists_where (of_user entry user) rows ≡ false
    → contains p.permission perms ≡ false
    → exists_where (λ p. of_user entry user p && contains p.permission perms) (rows ++ p ∷ [])
      ≡ false
unfolding exists_where
append_other entry user perms rows p h lacks = ground (
  arith,
  no_row_no_permission entry user perms rows h,
  exists-append (λ (p : PermissionRow). of_user entry user p && contains p.permission perms) rows
      (p ∷ []),
)

put_permission_replaces :
    (entry user : ℕ) (perm : String) (granter : Option ℕ) (perms : List String)
    (rows : List PermissionRow)
    → contains perm perms ≡ false
    → exists_where
        (λ p. of_user entry user p && contains p.permission perms)
        (put_permission entry user perm granter rows)
      ≡ false
unfolding put_permission
put_permission_replaces entry user perm granter perms rows lacks =
    elim (Bool-cases (exists_where (of_user entry user) rows)) [
      | inl e ↦ ground (arith, put_permission_only entry user perm granter perms rows lacks)
      | inr e ↦ ground (
        arith,
        append_other entry user perms rows
            (record { resource = entry; user_id = user; permission = perm; granted_by = granter }) e
            lacks,
      )
    ]

-- What an upsert of a key has found: the user and the entry, and it leaves the users and the entries.
upsert_key_lem :
    (w : World) (n entry user : ℕ) (key : String) (db db' : Db)
    → upsert_key w n entry (uuid user) key db ≡ some db'
    → (has_user db' user ≡ true) × (has_entry db' entry ≡ true)
unfolding upsert_key user_ref has_user has_entry ◌>>=◌
upsert_key_lem w n entry user key db db' h = ground (arith, h)

grant_self :
    (w : World) (n entry user : ℕ) (perm : String) (db : Db)
    → w.fails n ≡ false
    → has_user db user ≡ true
    → has_entry db entry ≡ true
    → str_eq perm "" ≡ true
    → (grant w n entry (uuid user) perm user db).entry_permissions
      ≡ put_permission entry user "read" (some user) db.entry_permissions
unfolding grant user_ref ◌>>=◌
grant_self w n entry user perm db ok known there plain = ground (arith, ok, known, there, plain)

share_entry_steps :
    (w : World) (caller : Claims) (entry : ℕ) (req : ShareEntryRequest) (db db' : Db)
    → share_entry w caller entry (some req) db ≡ (db', reply 204 tt)
    → (d : Db) × (upsert_key w 1 entry req.user_id req.encrypted_key db ≡ some d)
      × (db' ≡ grant w 2 entry req.user_id req.permission caller.user_id d)
unfolding share_entry
share_entry_steps w caller entry req db db' h =
    elim (Option-cases (upsert_key w 1 entry req.user_id req.encrypted_key db)) [
      | inl e ↦ absurd (ground arith)
      | inr (d, e) ↦ (d, e, ground arith)
    ]

-- If an owner shares an entry with themselves and names no permission, is answered 204, and the grant
-- comes through, then from there on they do not count as its owner: no check for owner lets them
-- pass.
pub share_entry_self :
    (w later : World) (n : ℕ) (caller : Claims) (entry : ℕ) (req : ShareEntryRequest) (db db' : Db)
    → req.user_id ≡ uuid caller.user_id
    → str_eq req.permission "" ≡ true
    → w.fails 2 ≡ false
    → share_entry w caller entry (some req) db ≡ (db', reply 204 tt)
    → entry_perm later n db' entry caller.user_id ("owner" ∷ []) ≡ false
unfolding entry_perm contains
share_entry_self w later n caller entry req db db' self plain ok done =
    let (d, e, after) = share_entry_steps w caller entry req db db' done in
    let e' : upsert_key w 1 entry (uuid caller.user_id) req.encrypted_key db ≡ some d =
      ap (λ (t : IdText). upsert_key w 1 entry t req.encrypted_key db) (sym self) ∙ e in
    let (known, there) = upsert_key_lem w 1 entry caller.user_id req.encrypted_key db d e' in
    let rows : db'.entry_permissions
        ≡ put_permission entry caller.user_id "read" (some caller.user_id) d.entry_permissions =
      ap (λ (x : Db). x.entry_permissions) after
      ∙ ap (λ (t : IdText). (grant w 2 entry t req.permission caller.user_id d).entry_permissions)
          self
      ∙ grant_self w 2 entry caller.user_id req.permission d ok known there plain in
    ground (
      arith,
      rows,
      put_permission_replaces entry caller.user_id "read" (some caller.user_id) ("owner" ∷ [])
          d.entry_permissions refl,
    )
