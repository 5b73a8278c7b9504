-- ===== src/Trash/Untouched.antt =====
-- What the statements of the trash and history handlers leave alone.
use passbubble.Prelude.{
  ℕ, Bool, true, false, ◌&&◌, List, ◌≡◌, ◌≢◌, refl, arith, ◌==◌, find-update_disjoint, find-delete,
  exists_false,
}
use passbubble.Store.{
  World, Db, EntryRow, KeyRow, of_user, key_of, Returns, Returns-bind, Returns-some,
}
use passbubble.Entries.Untouched.{Untouched, update-Untouched}
use passbubble.Trash.{gone, delete_entries, revert_entry, revert, revert_keys, revert_key}

-- No row of the entry meets the condition.
abbrev pub Stays : ℕ → (EntryRow → Bool) → Type 0
Stays e p = (r : EntryRow) → (r.id == e) ≡ true → p r ≡ false

pub not-gone :
    (e id : ℕ) (p : EntryRow → Bool) (db : Db) → Stays e p → id ≡ e → gone p db id ≡ false
unfolding gone
not-gone e id p db stays eq =
    exists_false (λ r. r.id == id && p r) db.entries (λ r. ground (arith, stays r))

pub delete_entries-Untouched :
    (e : ℕ) (p : EntryRow → Bool) (db : Db) → Stays e p → Untouched e db (delete_entries p db)
unfolding delete_entries
delete_entries-Untouched e p db stays = record {
  entry = find-delete (λ r. r.id == e) p db.entries stays;
  key = λ u.
      find-delete (key_of e u) (λ k. gone p db k.holder) db.entry_keys
        (λ k h. not-gone e k.holder p db stays (ground arith));
  permission = λ u.
      find-delete (of_user e u) (λ r. gone p db r.resource) db.entry_permissions
        (λ r h. not-gone e r.resource p db stays (ground arith));
}

revert_key_ids :
    (vks : List KeyRow) (v u e : ℕ) (k : KeyRow) → key_of e u (revert_key vks v k) ≡ key_of e u k
unfolding revert_key
revert_key_ids vks v u e k = ground arith

pub revert_keys-Untouched :
    (e : ℕ) (w : World) (entry version : ℕ) (db : Db)
    → e ≢ entry
    → Returns (Untouched e db) (revert_keys w entry version db)
unfolding revert_keys
revert_keys-Untouched e w entry version db ne = Returns-bind _ _ λ _ _. Returns-bind _ _ λ _ _.
    Returns-some (record {
      entry = refl;
      key = λ u.
          find-update_disjoint (key_of e u) (λ k. k.holder == entry)
            (revert_key db.version_keys version) db.entry_keys
            (revert_key_ids db.version_keys version u e) (λ k h. ground arith);
      permission = λ u. refl;
    })

pub revert_entry-Untouched :
    (e : ℕ) (w : World) (entry version : ℕ) (db : Db)
    → e ≢ entry
    → Returns (Untouched e db) (revert_entry w entry version db)
unfolding revert_entry revert
revert_entry-Untouched e w entry version db ne = Returns-bind _ _ λ _ _. Returns-bind _ _ λ v _.
    Returns-bind _ _
      λ _ _. Returns-some (update-Untouched e _ _ db (λ r. refl) (λ r h. ground arith))
