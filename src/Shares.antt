-- ===== src/Shares.antt =====
-- Taking shares back, of backend/internal/api/handlers/shares.go.
pub mod Revoking
use passbubble.Prelude.{
  ℕ, Bool, false, not, ◌&&◌, ◌||◌, Option, none, some, ◌==◌, if◌then◌else◌, delete_where,
  find_where, exists_where,
}
use passbubble.Store.{
  World, Db, Claims, Response, error, reply, PermissionRow, ◌>>◌, call, of_user, key_of, or_keep,
}

-- The owner of a resource, or the empty text where the query fails or finds nothing.
unfoldable pub entry_owner : World → ℕ → Db → ℕ → Option ℕ
entry_owner w n db entry =
    if w.fails n then none else elim (find_where (λ e. e.id == entry) db.entries) [
      | none ↦ none
      | some e ↦ some e.owner_id
    ]

unfoldable pub folder_owner : World → ℕ → Db → ℕ → Option ℕ
folder_owner w n db folder =
    if w.fails n then none else elim (find_where (λ f. f.id == folder) db.folders) [
      | none ↦ none
      | some f ↦ some f.owner_id
    ]

abbrev pub names : ℕ → Option ℕ → Bool
names user none = false
names user (some u) = u == user

-- resource=$1 AND user_id=$2 AND (granted_by=$3 OR $3=$4)
unfoldable pub revocable : ℕ → ℕ → ℕ → Option ℕ → PermissionRow → Bool
revocable resource target caller owner p =
    of_user resource target p && (names caller p.granted_by || names caller owner)

-- DELETE FROM entry_keys WHERE entry_id=$1 AND user_id=$2, its error dropped.
unfoldable pub drop_key : World → ℕ → ℕ → ℕ → Db → Db
drop_key w n entry user db =
    or_keep db
      do call w n; some (record db { entry_keys = delete_where (key_of entry user) db.entry_keys })

-- RevokeEntryShare: allowed to the owner of the entry and to who granted the share.
unfoldable pub revoke_entry_share : World → Claims → ℕ → ℕ → Db → Db × Response (Unit {0})
revoke_entry_share w caller entry target db =
    let p = revocable entry target caller.user_id (entry_owner w 0 db entry) in
    if w.fails 1 || not (exists_where p db.entry_permissions)
    then (db, error 404 "share not found or not authorized")
    else (
      drop_key w 2 entry target
          (record db { entry_permissions = delete_where p db.entry_permissions }),
      reply 204 tt,
    )

-- RevokeFolderShare
unfoldable pub revoke_folder_share : World → Claims → ℕ → ℕ → Db → Db × Response (Unit {0})
revoke_folder_share w caller folder target db =
    let p = revocable folder target caller.user_id (folder_owner w 0 db folder) in
    if w.fails 1 || not (exists_where p db.folder_permissions)
    then (db, error 404 "share not found or not authorized")
    else (record db { folder_permissions = delete_where p db.folder_permissions }, reply 204 tt)
