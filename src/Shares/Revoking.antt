-- ===== src/Shares/Revoking.antt =====
-- What the owner of an entry takes back, of backend/internal/api/handlers/shares.go.
use passbubble.Prelude.{
  ℕ, true, false, ◌&&◌, Option, none, some, ◌==◌, ◌≡◌, arith, ◌∙◌, ap, delete_where, find_where,
  find-delete, find-delete_self,
}
use passbubble.Store.{World, Db, Claims, EntryRow, PermissionRow, reply, of_user, key_of, ◌>>=◌}
use passbubble.Shares.{entry_owner, revocable, drop_key, revoke_entry_share}

-- The target has neither a permission nor a key any more, and everyone else has what they had.
pub record Revoked (entry target : ℕ) (before after : Db) : Type 0 where
  pub permission_gone : find_where (of_user entry target) after.entry_permissions ≡ none
  pub key_gone : find_where (key_of entry target) after.entry_keys ≡ none
  pub permission_kept :
      (e u : ℕ)
      → (e == entry && u == target) ≡ false
      → find_where (of_user e u) after.entry_permissions
        ≡ find_where (of_user e u) before.entry_permissions
  pub key_kept :
      (e u : ℕ)
      → (e == entry && u == target) ≡ false
      → find_where (key_of e u) after.entry_keys ≡ find_where (key_of e u) before.entry_keys

owner_is_found :
    (w : World) (n : ℕ) (db : Db) (entry : ℕ) (r : EntryRow)
    → w.fails n ≡ false
    → find_where (λ e. e.id == entry) db.entries ≡ some r
    → entry_owner w n db entry ≡ some r.owner_id
unfolding entry_owner
owner_is_found w n db entry r ok found = ground (arith, ok, found)

-- What a revocation answered 204 has done, once the owner is known.
revoke_entry_share_lem :
    (w : World) (caller : Claims) (entry target : ℕ) (db db' : Db)
    → w.fails 2 ≡ false
    → revoke_entry_share w caller entry target db ≡ (db', reply 204 tt)
    → db' ≡ record db {
      entry_permissions =
          delete_where
            (revocable entry target caller.user_id (entry_owner w 0 db entry))
            db.entry_permissions;
      entry_keys = delete_where (key_of entry target) db.entry_keys;
    }
unfolding revoke_entry_share drop_key ◌>>=◌
revoke_entry_share_lem w caller entry target db db' ok h = ground (arith, ok, h)

owner_may :
    (entry target user : ℕ) (p : PermissionRow)
    → of_user entry target p ≡ true
    → revocable entry target user (some user) p ≡ true
unfolding revocable
owner_may entry target user p h = ground arith

only_theirs :
    (entry target user e u : ℕ) (owner : Option ℕ) (p : PermissionRow)
    → (e == entry && u == target) ≡ false
    → of_user e u p ≡ true
    → revocable entry target user owner p ≡ false
unfolding revocable
only_theirs entry target user e u owner p ne h = ground arith

-- If the owner of an entry revokes a share, is answered 204, and the query for the owner and the
-- deletion of the key come through, then the target holds no permission and no key on the entry, and
-- every other permission and key is as before.
pub revoke_entry_share-Revoked :
    (w : World) (caller : Claims) (entry target : ℕ) (db db' : Db) (r : EntryRow)
    → find_where (λ e. e.id == entry) db.entries ≡ some r
    → r.owner_id ≡ caller.user_id
    → w.fails 0 ≡ false
    → w.fails 2 ≡ false
    → revoke_entry_share w caller entry target db ≡ (db', reply 204 tt)
    → Revoked entry target db db'
revoke_entry_share-Revoked w caller entry target db db' r found own ok ok' done =
    let after = revoke_entry_share_lem w caller entry target db db' ok' done in
    let owner = owner_is_found w 0 db entry r ok found ∙ ap some own in
    let rows =
      ap (λ (d : Db). d.entry_permissions) after
      ∙ ap
          (λ (o : Option ℕ).
            delete_where (revocable entry target caller.user_id o) db.entry_permissions)
          owner in
    let keys = ap (λ (d : Db). d.entry_keys) after in
    record {
      permission_gone =
          ap (find_where (of_user entry target)) rows
          ∙ find-delete_self (of_user entry target) _ db.entry_permissions
              (owner_may entry target caller.user_id);
      key_gone =
          ap (find_where (key_of entry target)) keys
          ∙ find-delete_self (key_of entry target) _ db.entry_keys (λ k h. h);
      permission_kept = λ e u ne.
          ap (find_where (of_user e u)) rows
          ∙ find-delete (of_user e u) _ db.entry_permissions
              (λ p h. only_theirs entry target caller.user_id e u (some caller.user_id) p ne h);
      key_kept = λ e u ne.
          ap (find_where (key_of e u)) keys
          ∙ find-delete (key_of e u) _ db.entry_keys (λ k h. ground arith);
    }
