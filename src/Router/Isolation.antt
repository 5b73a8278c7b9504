-- ===== src/Router/Isolation.antt =====
-- A caller who may not write an entry cannot touch it by any request on an entry.
use passbubble.Prelude.{
  ℕ, Bool, false, not, ◌&&◌, Option, none, some, [], ◌∷◌, ◌≡◌, ◌≢◌, refl, subst, inl, inr, arith,
  ◌==◌, is_none, update_where, exists_where, exists_mono, Option-cases,
}
use passbubble.Store.{World, Db, Claims, EntryRow, PermissionRow, of_user, contains}
use passbubble.Entries.Access.{entry_perm}
use passbubble.Entries.Untouched.{
  Untouched, Untouched-refl, Untouched-trans, update-Untouched, upsert_key-Untouched,
  snapshot-Untouched, snapshot_if-Untouched, update_rest-Untouched, grant-Untouched,
}
use passbubble.Entries.Creation.{create_entry-Untouched}
use passbubble.Trash.Untouched.{
  delete_entries-Untouched, revert_keys-Untouched, revert_entry-Untouched,
}
use passbubble.Entries.{
  UpdateEntryRequest, ShareEntryRequest, snapshot_if_replaced, update_rest, upsert_key, grant,
  update_entry, delete_entry, share_entry,
}
use passbubble.Entries.History.{snapshot_version}
use passbubble.ShareLinks.{Links}
use passbubble.Trash.{
  in_trash, delete_entries, revert_entry, revert_keys, restore_entry, purge_entry, set_favorite,
  restore_version,
}
use passbubble.Router.Strangers.{may_revoke, link-handler, revoke-handler}
use passbubble.Router.{
  EntryRequest, create, update, delete, restore, purge, favorite, restore_version_of, share,
  share_link, revoke_share, route,
}

-- The user holds a permission to write the entry.
unfoldable pub may_write : Db → ℕ → ℕ → Bool
may_write db entry user =
    exists_where (λ p. of_user entry user p && contains p.permission ("write" ∷ "owner" ∷ []))
      db.entry_permissions

module _ (links : Links) (w : World) (caller : Claims) (db : Db) (e : ℕ)
    (denied : may_write db e caller.user_id ≡ false)
    (stranger : may_revoke db e caller.user_id ≡ false) where
  no_write : entry_perm w 0 db e caller.user_id ("write" ∷ "owner" ∷ []) ≡ false
  unfolding entry_perm may_write
  no_write = ground arith

  no_owner : entry_perm w 0 db e caller.user_id ("owner" ∷ []) ≡ false
  unfolding entry_perm may_write contains
  no_owner = ground (
    arith,
    exists_mono
        (λ (p : PermissionRow). of_user e caller.user_id p && contains p.permission ("owner" ∷ []))
        (λ (p : PermissionRow).
          of_user e caller.user_id p && contains p.permission ("write" ∷ "owner" ∷ []))
        db.entry_permissions (λ p h. ground arith),
  )

  -- A request that comes through the guard is about another entry.
  write-other :
      (entry : ℕ)
      → not (entry_perm w 0 db entry caller.user_id ("write" ∷ "owner" ∷ [])) ≡ false
      → e ≢ entry
  write-other entry h eq = ground (
    arith,
    subst (λ i. entry_perm w 0 db i caller.user_id ("write" ∷ "owner" ∷ []) ≡ false) eq no_write,
  )

  owner-other :
      (entry : ℕ) → not (entry_perm w 0 db entry caller.user_id ("owner" ∷ [])) ≡ false → e ≢ entry
  owner-other entry h eq =
      ground
        (arith, subst (λ i. entry_perm w 0 db i caller.user_id ("owner" ∷ []) ≡ false) eq no_owner)

  update-leaf :
      (entry : ℕ) (req : UpdateEntryRequest) (db₁ db₂ : Db)
      → snapshot_if_replaced w entry caller.user_id req db ≡ some db₁
      → update_rest w entry req db₁ ≡ some db₂
      → e ≢ entry
      → Untouched e db db₂
  update-leaf entry req db₁ db₂ h₁ h₂ ne =
      Untouched-trans ((snapshot_if-Untouched e w entry caller.user_id req db).at db₁ h₁)
        ((update_rest-Untouched e w entry req db₁ ne).at db₂ h₂)

  update-handler :
      (entry : ℕ) (req : Option UpdateEntryRequest)
      → Untouched e db (update_entry w caller entry req db).0
  unfolding update_entry
  update-handler entry none = Untouched-refl e db
  update-handler entry (some req) =
      elim (Option-cases (snapshot_if_replaced w entry caller.user_id req db)) [
        | inl e₁ ↦ ground (arith, Untouched-refl e db)
        | inr (db₁, h₁) ↦ elim (Option-cases (update_rest w entry req db₁)) [
          | inl e₂ ↦ ground (arith, Untouched-refl e db)
          | inr (db₂, h₂) ↦
              ground (arith, Untouched-refl e db, write-other entry, update-leaf entry req db₁ db₂)
        ]
      ]

  row-leaf :
      (entry : ℕ) (c : EntryRow → Bool) (f : EntryRow → EntryRow)
      → ((r : EntryRow) → (f r).id ≡ r.id)
      → e ≢ entry
      → Untouched e db
          (record db { entries = update_where (λ r. r.id == entry && c r) f db.entries })
  row-leaf entry c f same ne = update-Untouched e _ f db same (λ r h. ground arith)

  delete-handler : (entry : ℕ) → Untouched e db (delete_entry w caller entry db).0
  unfolding delete_entry
  delete-handler entry = ground (
    arith,
    Untouched-refl e db,
    owner-other entry,
    row-leaf entry (λ r. is_none r.deleted_at) (λ r. record r { deleted_at = some w.now })
        (λ r. refl),
  )

  restore-handler : (entry : ℕ) → Untouched e db (restore_entry w caller entry db).0
  unfolding restore_entry
  restore-handler entry = ground (
    arith,
    Untouched-refl e db,
    owner-other entry,
    row-leaf entry in_trash (λ r. record r { deleted_at = none }) (λ r. refl),
  )

  favorite-handler :
      (entry : ℕ) (req : Option Bool) → Untouched e db (set_favorite w caller entry req db).0
  unfolding set_favorite
  favorite-handler entry none = Untouched-refl e db
  favorite-handler entry (some on) = ground (
    arith,
    Untouched-refl e db,
    write-other entry,
    row-leaf entry (λ r. is_none r.deleted_at) (λ r. record r { favorite = on }) (λ r. refl),
  )

  purge-leaf : (entry : ℕ) → e ≢ entry → Untouched e db (delete_entries (λ r. r.id == entry) db)
  purge-leaf entry ne = delete_entries-Untouched e _ db (λ r h. ground arith)

  purge-handler : (entry : ℕ) → Untouched e db (purge_entry w caller entry db).0
  unfolding purge_entry
  purge-handler entry = ground (arith, Untouched-refl e db, owner-other entry, purge-leaf entry)

  share-leaf :
      (entry : ℕ) (req : ShareEntryRequest) (db₁ : Db)
      → upsert_key w 1 entry req.user_id req.encrypted_key db ≡ some db₁
      → e ≢ entry
      → Untouched e db (grant w 2 entry req.user_id req.permission caller.user_id db₁)
  share-leaf entry req db₁ h₁ ne =
      Untouched-trans
        ((upsert_key-Untouched e w 1 entry req.user_id req.encrypted_key db ne).at db₁ h₁)
        (grant-Untouched e w 2 entry req.user_id req.permission caller.user_id db₁ ne)

  share-handler :
      (entry : ℕ) (req : Option ShareEntryRequest)
      → Untouched e db (share_entry w caller entry req db).0
  unfolding share_entry
  share-handler entry none = Untouched-refl e db
  share-handler entry (some req) =
      elim (Option-cases (upsert_key w 1 entry req.user_id req.encrypted_key db)) [
        | inl e₁ ↦ ground (arith, Untouched-refl e db)
        | inr (db₁, h₁) ↦
            ground (arith, Untouched-refl e db, owner-other entry, share-leaf entry req db₁)
      ]

  version-leaf :
      (entry version : ℕ) (db₁ db₂ db₃ : Db)
      → snapshot_version w 2 entry caller.user_id (some version) db ≡ some db₁
      → revert_entry w entry version db₁ ≡ some db₂
      → revert_keys w entry version db₂ ≡ some db₃
      → e ≢ entry
      → Untouched e db db₃
  version-leaf entry version db₁ db₂ db₃ h₁ h₂ h₃ ne =
      Untouched-trans ((snapshot-Untouched e w 2 entry caller.user_id (some version) db).at db₁ h₁)
        (Untouched-trans ((revert_entry-Untouched e w entry version db₁ ne).at db₂ h₂)
          ((revert_keys-Untouched e w entry version db₂ ne).at db₃ h₃))

  version-handler :
      (entry version : ℕ) → Untouched e db (restore_version w caller entry version db).0
  unfolding restore_version
  version-handler entry version =
      elim (Option-cases (snapshot_version w 2 entry caller.user_id (some version) db)) [
        | inl e₁ ↦ ground (arith, Untouched-refl e db)
        | inr (db₁, h₁) ↦ elim (Option-cases (revert_entry w entry version db₁)) [
          | inl e₂ ↦ ground (arith, Untouched-refl e db)
          | inr (db₂, h₂) ↦ elim (Option-cases (revert_keys w entry version db₂)) [
            | inl e₃ ↦ ground (arith, Untouched-refl e db)
            | inr (db₃, h₃) ↦ ground (
              arith,
              Untouched-refl e db,
              write-other entry,
              version-leaf entry version db₁ db₂ db₃,
            )
          ]
        ]
      ]

  -- If a caller holds neither a write nor an owner permission on an entry, does not own it and
  -- granted none of the permissions on it, then none of the entry requests that may change the
  -- state, share links and the revocation of shares included, changes the entry's row or any key
  -- or permission on it, whatever it asks and whatever database calls fail, provided the first
  -- UUID drawn for the request is not the entry's id.
  pub route-Untouched :
      (req : EntryRequest) → w.uuid 0 ≢ e → Untouched e db (route links w caller req db).0
  unfolding route
  route-Untouched (create req) fresh = create_entry-Untouched e w caller req db fresh
  route-Untouched (update entry req) fresh = update-handler entry req
  route-Untouched (delete entry) fresh = delete-handler entry
  route-Untouched (restore entry) fresh = restore-handler entry
  route-Untouched (purge entry) fresh = purge-handler entry
  route-Untouched (favorite entry req) fresh = favorite-handler entry req
  route-Untouched (restore_version_of entry version) fresh = version-handler entry version
  route-Untouched (share entry req) fresh = share-handler entry req
  route-Untouched (share_link entry req) fresh = link-handler links w caller db e entry req
  route-Untouched (revoke_share entry target) fresh =
      revoke-handler w caller db e stranger entry target
