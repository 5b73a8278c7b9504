-- ===== src/Router/Strangers.antt =====
-- The entry requests that are not guarded by a permission to write: share links, which write no table
-- of entries, and the revocation of shares, which the owner and who granted a share may do.
use passbubble.Prelude.{
  ℕ, Bool, false, not, ◌&&◌, Option, none, some, [], ◌∷◌, ◌≡◌, ◌≢◌, refl, subst, inl, inr, arith,
  ◌==◌, str_eq, delete_where, find_where, find-delete, exists_where, exists_mono, Option-cases,
  Bool-cases, true, List, ◌⊎◌, ◌||◌,
}
use passbubble.Store.{
  World, Db, Claims, Response, Bytes, or_fail, key_of, EntryRow, PermissionRow, ShareLinkRow,
  Returns, Returns-bind, Returns-some, of_user,
}
use passbubble.Entries.Untouched.{Untouched, Untouched-refl, Untouched-trans, or_keep-Untouched}
use passbubble.Shares.{names, entry_owner, revocable, drop_key, revoke_entry_share}
use passbubble.ShareLinks.{
  Links, CreateShareLinkRequest, Target, owns, password_columns, insert_link, create_link,
  create_share_link,
}

-- The user owns the entry, or granted one of the permissions on it.
unfoldable pub may_revoke : Db → ℕ → ℕ → Bool
may_revoke db entry user =
    exists_where (λ r. r.id == entry && r.owner_id == user) db.entries
    || exists_where (λ p. p.resource == entry && names user p.granted_by) db.entry_permissions

same_or_other : (a b : ℕ) → (a ≡ b) ⊎ (a ≢ b)
same_or_other a b = elim (Bool-cases (a == b)) [
  | inl e ↦ inl (ground arith)
  | inr e ↦ inr (ground arith)
]

module _ (links : Links) (w : World) (caller : Claims) (db : Db) (e : ℕ) where
  insert_link-Untouched : (row : ShareLinkRow) → Returns (Untouched e db) (insert_link w 1 row db)
  unfolding insert_link
  insert_link-Untouched row = Returns-bind _ _ λ _ _.
      Returns-bind _ _
        λ _ _. Returns-some (record { entry = refl; key = λ u. refl; permission = λ u. refl })

  or_fail-Untouched :
      {A : Type 0} (failed : Response A) (o : Option Db) (answer : Response A)
      → Returns (Untouched e db) o
      → Untouched e db (or_fail db failed o λ d. (d, answer)).0
  or_fail-Untouched failed none answer h = Untouched-refl e db
  or_fail-Untouched failed (some d) answer h = h.at d refl

  create_link-Untouched :
      (target : Target) (req : CreateShareLinkRequest) (expires : ℕ) (content nonce : Bytes)
      → Untouched e db (create_link links w caller target req expires content nonce db).0
  unfolding create_link
  create_link-Untouched target req expires content nonce =
      elim (Bool-cases (w.fails 0 || not (owns db caller.user_id target))) [
        | inl g ↦ rw g (Untouched-refl e db)
        | inr g ↦ elim (Option-cases (password_columns links req.password)) [
          | inl p ↦ rw (g, p) (Untouched-refl e db)
          | inr ((salt, hash), p) ↦ elim (Option-cases links.random_token) [
            | inl r ↦ rw (g, p, r) (Untouched-refl e db)
            | inr (token, r) ↦ rw (g, p, r) (or_fail-Untouched _ _ _ (insert_link-Untouched _))
          ]
        ]
      ]

  pub link-handler :
      (entry : ℕ) (req : Option CreateShareLinkRequest)
      → Untouched e db (create_share_link links w caller (Target.entry entry) req db).0
  unfolding create_share_link
  link-handler entry none = Untouched-refl e db
  link-handler entry (some req) =
      elim (Bool-cases (
        str_eq req.encrypted_payload ""
        || str_eq req.payload_nonce ""
        || str_eq req.expires_at "")) [
          | inl g ↦ rw g (Untouched-refl e db)
          | inr g ↦ elim (Option-cases (links.parse_time req.expires_at)) [
            | inl p ↦ rw (g, p) (Untouched-refl e db)
            | inr (expires, p) ↦ elim (Option-cases (w.decode64 req.encrypted_payload)) [
              | inl d ↦ rw (g, p, d) (Untouched-refl e db)
              | inr (content, d) ↦ elim (Option-cases (w.decode64 req.payload_nonce)) [
                | inl n ↦ rw (g, p, d, n) (Untouched-refl e db)
                | inr (nonce, n) ↦
                    rw (g, p, d, n)
                      (create_link-Untouched (Target.entry entry) req expires content nonce)
              ]
            ]
          ]
        ]

module _ (w : World) (caller : Claims) (db : Db) (e : ℕ)
    (stranger : may_revoke db e caller.user_id ≡ false) where
  -- Who may not revoke shares of the entry is neither its owner nor named by its permissions.
  owner_unnamed :
      (rows : List EntryRow) (r : EntryRow)
      → find_where (λ r. r.id == e) rows ≡ some r
      → exists_where (λ r. r.id == e && r.owner_id == caller.user_id) rows ≡ false
      → (r.owner_id == caller.user_id) ≡ false
  unfolding find_where exists_where
  owner_unnamed [] r found none_there = absurd (ground arith)
  owner_unnamed (x ∷ rows) r found none_there = ground (arith, owner_unnamed rows r)

  not_owner : names caller.user_id (entry_owner w 0 db e) ≡ false
  unfolding entry_owner may_revoke
  not_owner = elim (Option-cases (find_where (λ r. r.id == e) db.entries)) [
    | inl n ↦ ground arith
    | inr (r, f) ↦ ground (arith, owner_unnamed db.entries r)
  ]

  none_revocable :
      (target : ℕ)
      → exists_where (revocable e target caller.user_id (entry_owner w 0 db e)) db.entry_permissions
        ≡ false
  unfolding revocable may_revoke
  none_revocable target =
      elim (Bool-cases (
        exists_where (revocable e target caller.user_id (entry_owner w 0 db e))
          db.entry_permissions)) [
            | inl h ↦ absurd (
                ground (
                  arith,
                  exists_mono (revocable e target caller.user_id (entry_owner w 0 db e))
                      (λ (p : PermissionRow). p.resource == e && names caller.user_id p.granted_by)
                      db.entry_permissions (λ p g. ground (arith, not_owner)),
                ))
            | inr h ↦ h
          ]

  permissions-Untouched :
      (p : PermissionRow → Bool)
      → ((r : PermissionRow) → p r ≡ true → e ≢ r.resource)
      → Untouched e db (record db { entry_permissions = delete_where p db.entry_permissions })
  permissions-Untouched p other = record {
    entry = refl;
    key = λ u. refl;
    permission = λ u.
        find-delete (of_user e u) p db.entry_permissions (λ r h. elim (Bool-cases (p r)) [
          | inl g ↦ absurd (ground (arith, other r g))
          | inr g ↦ g
        ]);
  }

  drop_key-Untouched :
      (entry target : ℕ) (d : Db) → e ≢ entry → Untouched e d (drop_key w 2 entry target d)
  unfolding drop_key
  drop_key-Untouched entry target d ne = or_keep-Untouched e d _ (
      Returns-bind _ _ λ _ _. Returns-some record {
        entry = refl;
        key = λ u. find-delete (key_of e u) _ d.entry_keys (λ k h. ground arith);
        permission = λ u. refl;
      })

  revoke-leaf :
      (entry target : ℕ) (owner : Option ℕ)
      → e ≢ entry
      → Untouched e db (
          drop_key w 2 entry target (record db {
            entry_permissions =
                delete_where (revocable entry target caller.user_id owner) db.entry_permissions;
          }))
  unfolding revocable
  revoke-leaf entry target owner ne =
      Untouched-trans (permissions-Untouched _ (λ r h. ground arith))
        (drop_key-Untouched entry target _ ne)

  pub revoke-handler :
      (entry target : ℕ) → Untouched e db (revoke_entry_share w caller entry target db).0
  unfolding revoke_entry_share
  revoke-handler entry target = elim (same_or_other e entry) [
    | inl same ↦ ground (
      arith,
      Untouched-refl e db,
      subst
          (λ i.
            exists_where (revocable i target caller.user_id (entry_owner w 0 db i))
              db.entry_permissions
            ≡ false)
          same (none_revocable target),
    )
    | inr other ↦
        ground
          (arith, Untouched-refl e db, revoke-leaf entry target (entry_owner w 0 db entry) other)
  ]
