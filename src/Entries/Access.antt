-- ===== src/Entries/Access.antt =====
-- Who may do what with an entry: `entryPerm` of backend/internal/api/handlers/entries.go and
-- `requireEntryAccess` of trash_versions.go, and the entry types that the server accepts.
use passbubble.Prelude.{
  ℕ, String, Bool, false, ◌&&◌, ◌||◌, List, [], ◌∷◌, ◌==◌, if◌then◌else◌, exists_where,
}
use passbubble.Store.{World, Db, EntryRow, of_user, contains}

-- A query whose error is ignored leaves `exists` false.
unfoldable pub entry_perm : World → ℕ → Db → ℕ → ℕ → List String → Bool
entry_perm w n db entry user perms =
    if w.fails n
    then false
    else exists_where (λ p. of_user entry user p && contains p.permission perms)
        db.entry_permissions

-- At most one row joins an entry and a user, by the primary key of entry_permissions.
abbrev pub has_access : Db → ℕ → EntryRow → Bool
has_access db user e = e.owner_id == user || exists_where (of_user e.id user) db.entry_permissions

unfoldable pub require_entry_access : World → ℕ → Db → ℕ → ℕ → Bool
require_entry_access w n db entry user =
    if w.fails n
    then false
    else exists_where (λ e. e.id == entry && has_access db user e) db.entries

abbrev pub allowed_entry_types : List String
allowed_entry_types =
    "password" ∷ "totp" ∷ "note" ∷ "api-key" ∷ "ssh-key" ∷ "certificate" ∷ "credit-card"
    ∷ "bank-account" ∷ "identity" ∷ "license" ∷ []

unfoldable pub valid_entry_type : String → Bool
unfolding contains
valid_entry_type t = contains t allowed_entry_types
