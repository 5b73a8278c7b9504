-- ===== src/Router.antt =====
-- The entry routes of backend/internal/api/router.go that may change the state: a request with the
-- caller's claims goes to its handler. What remains of the answer here is its status.
pub mod Atomic
pub mod Strangers
pub mod Isolation
use passbubble.Prelude.{ℕ, Bool, Option, List, [], ◌∷◌}
use passbubble.Store.{World, Db, Claims, Response, error, reply}
use passbubble.Entries.{
  CreateEntryRequest, UpdateEntryRequest, ShareEntryRequest, create_entry, update_entry,
  delete_entry, share_entry,
}
use passbubble.Shares.{revoke_entry_share}
use passbubble.ShareLinks.{Links, CreateShareLinkRequest, entry, create_share_link}
use passbubble.Trash.{restore_entry, purge_entry, set_favorite, restore_version}

pub data EntryRequest : Type 0 where
  create : Option CreateEntryRequest → EntryRequest
  update : ℕ → Option UpdateEntryRequest → EntryRequest
  delete : ℕ → EntryRequest
  restore : ℕ → EntryRequest
  purge : ℕ → EntryRequest
  favorite : ℕ → Option Bool → EntryRequest
  restore_version_of : ℕ → ℕ → EntryRequest
  share : ℕ → Option ShareEntryRequest → EntryRequest
  share_link : ℕ → Option CreateShareLinkRequest → EntryRequest
  revoke_share : ℕ → ℕ → EntryRequest

abbrev pub status {ℓ} : {A : Type ℓ} → Response A → ℕ
status (error s msg) = s
status (reply s a) = s

abbrev pub answer {ℓ} : {A : Type ℓ} → Db × Response A → Db × ℕ
answer (db, r) = (db, status r)

unfoldable pub route : Links → World → Claims → EntryRequest → Db → Db × ℕ
route links w caller (create req) db = answer (create_entry w caller req db)
route links w caller (update e req) db = answer (update_entry w caller e req db)
route links w caller (delete e) db = answer (delete_entry w caller e db)
route links w caller (restore e) db = answer (restore_entry w caller e db)
route links w caller (purge e) db = answer (purge_entry w caller e db)
route links w caller (favorite e req) db = answer (set_favorite w caller e req db)
route links w caller (restore_version_of e version) db =
    answer (restore_version w caller e version db)
route links w caller (share e req) db = answer (share_entry w caller e req db)
route links w caller (share_link e req) db =
    answer (create_share_link links w caller (entry e) req db)
route links w caller (revoke_share e target) db = answer (revoke_entry_share w caller e target db)

-- Requests of several callers, one after the other.
unfoldable pub run : Links → List (World × Claims × EntryRequest) → Db → Db
run links [] db = db
run links ((w, caller, req) ∷ rest) db = run links rest (route links w caller req db).0
