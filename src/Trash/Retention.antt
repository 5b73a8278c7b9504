-- ===== src/Trash/Retention.antt =====
-- An entry in the trash, of backend/internal/api/handlers/trash_versions.go and
-- backend/internal/services/purge.go: how long it can be restored.
use passbubble.Prelude.{
  ℕ, ◌+◌, ◌≤◌, Bool, false, ◌&&◌, Option, none, some, List, [], ◌∷◌, ◌≡◌, refl, sym, ap, ◌∙◌, arith,
  ◌==◌, find_where, exists_where, update_where, delete_where, find-delete, find-update, find_sound,
  is_none, Option-cases, Bool-cases, inl, inr,
}
use passbubble.Store.{World, Db, Claims, EntryRow, reply, of_user, key_of}
use passbubble.Entries.{delete_entry}
use passbubble.Entries.Untouched.{Untouched}
use passbubble.Trash.{
  gone, in_trash, delete_entries, is_overdue, trash_retention, purge_once, restore_entry,
}

find-delete_kept :
    (e : ℕ) (p : EntryRow → Bool) (rows : List EntryRow)
    → exists_where (λ r. r.id == e && p r) rows ≡ false
    → find_where (λ r. r.id == e) (delete_where p rows) ≡ find_where (λ r. r.id == e) rows
unfolding exists_where find_where delete_where
find-delete_kept e p [] h = refl
find-delete_kept e p (r ∷ rows) h = ground (arith, find-delete_kept e p rows)

gone_same :
    (p : EntryRow → Bool) (db : Db) (e id : ℕ) → gone p db e ≡ false → id ≡ e → gone p db id ≡ false
gone_same p db e id kept same = ap (gone p db) same ∙ kept

-- Deleting other entries leaves an entry alone.
pub delete_others-Untouched :
    (e : ℕ) (p : EntryRow → Bool) (db : Db)
    → gone p db e ≡ false
    → Untouched e db (delete_entries p db)
unfolding delete_entries gone
delete_others-Untouched e p db kept = record {
  entry = find-delete_kept e p db.entries kept;
  key = λ u.
      find-delete (key_of e u) (λ k. exists_where (λ r. r.id == k.holder && p r) db.entries)
        db.entry_keys (λ k h. gone_same p db e k.holder kept (ground arith));
  permission = λ u.
      find-delete (of_user e u) (λ k. exists_where (λ r. r.id == k.resource && p r) db.entries)
        db.entry_permissions (λ k h. gone_same p db e k.resource kept (ground arith));
}

purge_once-Untouched :
    (e : ℕ) (w : World) (db : Db)
    → gone (is_overdue w.now) db e ≡ false
    → Untouched e db (purge_once w db)
unfolding purge_once
purge_once-Untouched e w db kept = elim (Bool-cases (w.fails 0)) [
  | inl f ↦ record { entry = ground arith; key = λ u. ground arith; permission = λ u. ground arith }
  | inr f ↦
      let h = delete_others-Untouched e (is_overdue w.now) db kept in
      record {
        entry = ground (arith, h.entry);
        key = λ u. ground (arith, h.key u);
        permission = λ u. ground (arith, h.permission u);
      }
]

abbrev trashed : ℕ → EntryRow → EntryRow
trashed t r = record r { deleted_at = some t }

abbrev restored : EntryRow → EntryRow
restored r = record r { deleted_at = none }

-- What was put into the trash is not overdue for as long as it is retained.
not_overdue :
    (e t now : ℕ) (rows : List EntryRow)
    → exists_where (λ r. r.id == e && in_trash r) rows ≡ false
    → now ≤ t + trash_retention
    → exists_where
        (λ r. r.id == e && is_overdue now r)
        (update_where (λ r. r.id == e && is_none r.deleted_at) (trashed t) rows)
      ≡ false
unfolding exists_where update_where
not_overdue e t now [] h within = refl
not_overdue e t now (r ∷ rows) h within = elim (Option-cases r.deleted_at) [
  | inl k ↦ ground (arith, not_overdue e t now rows)
  | inr (d, k) ↦ ground (arith, not_overdue e t now rows)
]

-- An entry outside of the trash has no date of deletion.
no_date :
    (e : ℕ) (rows : List EntryRow) (r : EntryRow)
    → exists_where (λ r. r.id == e && in_trash r) rows ≡ false
    → find_where (λ r. r.id == e) rows ≡ some r
    → r.deleted_at ≡ none
unfolding exists_where find_where
no_date e [] r h found = absurd (ground arith)
no_date e (x ∷ rows) r h found = elim (Bool-cases (x.id == e)) [
  | inl k ↦ elim (Option-cases x.deleted_at) [
    | inl d ↦ ground arith
    | inr (t, d) ↦ absurd (ground arith)
  ]
  | inr k ↦ no_date e rows r (ground arith) (ground arith)
]

delete_entry_lem :
    (w : World) (caller : Claims) (e : ℕ) (db db' : Db)
    → delete_entry w caller e db ≡ (db', reply 204 tt)
    → db' ≡ record db {
      entries = update_where (λ r. r.id == e && is_none r.deleted_at) (trashed w.now) db.entries;
    }
unfolding delete_entry
delete_entry_lem w caller e db db' h = ground (arith, h)

restore_entry_lem :
    (w : World) (caller : Claims) (e : ℕ) (db db' : Db)
    → restore_entry w caller e db ≡ (db', reply 204 tt)
    → db' ≡ record db { entries = update_where (λ r. r.id == e && in_trash r) restored db.entries }
unfolding restore_entry
restore_entry_lem w caller e db db' h = ground (arith, h)

back :
    (e t : ℕ) (before between : List EntryRow)
    → exists_where (λ r. r.id == e && in_trash r) before ≡ false
    → find_where (λ r. r.id == e) between
      ≡ find_where
          (λ r. r.id == e)
          (update_where (λ r. r.id == e && is_none r.deleted_at) (trashed t) before)
    → find_where (λ r. r.id == e) (update_where (λ r. r.id == e && in_trash r) restored between)
      ≡ find_where (λ r. r.id == e) before
back e t before between h same = elim (Option-cases (find_where (λ r. r.id == e) before)) [
  | inl k ↦ ground (
    arith,
    same,
    find-update (λ r. r.id == e) (λ r. r.id == e && in_trash r) restored between (λ r. refl),
    find-update (λ r. r.id == e) (λ r. r.id == e && is_none r.deleted_at) (trashed t) before
        (λ r. refl),
  )
  | inr (r, k) ↦
      let date = no_date e before r h k in
      let there : find_where (λ r. r.id == e) between ≡ some (trashed t r) = ground (
        arith,
        same,
        k,
        date,
        find_sound (λ r. r.id == e) before {a = r} k,
        find-update (λ r. r.id == e) (λ r. r.id == e && is_none r.deleted_at) (trashed t) before
            (λ r. refl),
      ) in
      let again : find_where (λ r. r.id == e)
            (update_where (λ r. r.id == e && in_trash r) restored between)
          ≡ some (restored r) =
        ground (
          arith,
          there,
          find_sound (λ r. r.id == e) before {a = r} k,
          find-update (λ r. r.id == e) (λ r. r.id == e && in_trash r) restored between (λ r. refl),
        ) in
      again ∙ ap some (ap (λ (d : Option ℕ). record r { deleted_at = d }) (sym date)) ∙ sym k
]

-- If an entry that is not in the trash is moved there by a DeleteEntry answered 204, one round of the
-- purge runs at most 30 days later, and a RestoreEntry is then answered 204, then the entry's row and
-- every key and permission on it are what they were before, whatever call of the purge fails.
pub delete-restore :
    (e : ℕ) (w₁ w₂ w₃ : World) (c₁ c₃ : Claims) (db d₁ d₃ : Db)
    → gone in_trash db e ≡ false
    → delete_entry w₁ c₁ e db ≡ (d₁, reply 204 tt)
    → w₂.now ≤ w₁.now + trash_retention
    → restore_entry w₃ c₃ e (purge_once w₂ d₁) ≡ (d₃, reply 204 tt)
    → Untouched e db d₃
unfolding gone
delete-restore e w₁ w₂ w₃ c₁ c₃ db d₁ d₃ there deleted within given_back =
    let away = delete_entry_lem w₁ c₁ e db d₁ deleted in
    let here = restore_entry_lem w₃ c₃ e (purge_once w₂ d₁) d₃ given_back in
    let entries : d₁.entries
        ≡ update_where (λ r. r.id == e && is_none r.deleted_at) (trashed w₁.now) db.entries =
      ap (λ (d : Db). d.entries) away in
    let purged = purge_once-Untouched e w₂ d₁ (
      ap (exists_where (λ r. r.id == e && is_overdue w₂.now r)) entries
      ∙ not_overdue e w₁.now w₂.now db.entries there within) in
    record {
      entry =
          ap (λ (d : Db). find_where (λ r. r.id == e) d.entries) here
          ∙ back e w₁.now db.entries (purge_once w₂ d₁).entries there
              (purged.entry ∙ ap (find_where (λ r. r.id == e)) entries);
      key = λ u.
          ap (λ (d : Db). find_where (key_of e u) d.entry_keys) here
          ∙ purged.key u
          ∙ ap (λ (d : Db). find_where (key_of e u) d.entry_keys) away;
      permission = λ u.
          ap (λ (d : Db). find_where (of_user e u) d.entry_permissions) here
          ∙ purged.permission u
          ∙ ap (λ (d : Db). find_where (of_user e u) d.entry_permissions) away;
    }
