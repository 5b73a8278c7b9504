-- ===== src/Router/Atomic.antt =====
-- A request that is refused or that fails changes nothing.
use passbubble.Prelude.{◌≤◌, ◌≡◌, arith}
use passbubble.Store.{World, Db, Claims}
use passbubble.Entries.{create_entry, update_entry, delete_entry, share_entry}
use passbubble.Shares.{revoke_entry_share}
use passbubble.ShareLinks.{Links, create_link, create_share_link}
use passbubble.Trash.{restore_entry, purge_entry, set_favorite, restore_version}
use passbubble.Router.{
  EntryRequest, create, update, delete, restore, purge, favorite, restore_version_of, share,
  share_link, revoke_share, route,
}

module _ (links : Links) (w : World) (caller : Claims) (db : Db) where
  -- An entry request of those that may change the state, share links and the revocation of shares
  -- included, that is answered with a status of 400 or more leaves the whole database as it was,
  -- whatever database calls fail.
  pub route-error_changes_nothing :
      (req : EntryRequest)
      → 400 ≤ (route links w caller req db).1
      → (route links w caller req db).0 ≡ db
  unfolding route create_entry update_entry delete_entry restore_entry purge_entry set_favorite
      restore_version share_entry create_share_link create_link revoke_entry_share
  route-error_changes_nothing (create req) h = ground arith
  route-error_changes_nothing (update entry req) h = ground arith
  route-error_changes_nothing (delete entry) h = ground arith
  route-error_changes_nothing (restore entry) h = ground arith
  route-error_changes_nothing (purge entry) h = ground arith
  route-error_changes_nothing (favorite entry req) h = ground arith
  route-error_changes_nothing (restore_version_of entry version) h = ground arith
  route-error_changes_nothing (share entry req) h = ground arith
  route-error_changes_nothing (share_link entry req) h = ground arith
  route-error_changes_nothing (revoke_share entry target) h = ground arith
