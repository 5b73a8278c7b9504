-- ===== src/Entries/History/Kept.antt =====
-- The version that a snapshot is told to keep is still there afterwards, and so are its keys.
use passbubble.Prelude.{
  ℕ, Bool, false, ◌&&◌, none, some, List, [], ◌∷◌, ◌≡◌, ◌≢◌, refl, ◌∙◌, arith, ◌==◌, find_where,
  select_where, find-delete, find-append,
}
use passbubble.Store.{World, Db, VersionRow, KeyRow, key_of, Returns, Returns-bind, Returns-some}
use passbubble.Entries.History.{version_of_entry, copy_keys, is_pruned, prune, snapshot_version}

-- The version that RestoreVersion copies back must be one of the entry's.
abbrev pub version_row : ℕ → ℕ → VersionRow → Bool
version_row entry version v = v.id == version && v.entry_id == entry

find-copy_keys_other :
    (holder version entry u : ℕ) (keys : List KeyRow)
    → holder ≢ version
    → find_where (key_of holder u) (copy_keys version entry keys) ≡ none
unfolding copy_keys find_where select_where
find-copy_keys_other holder version entry u [] ne = refl
find-copy_keys_other holder version entry u (k ∷ ks) ne =
    ground (arith, find-copy_keys_other holder version entry u ks ne)

module _ (w : World) (n entry editor version : ℕ) (db : Db) where
  kept-not_pruned :
      (ds : List VersionRow) (id : ℕ) → id ≡ version → is_pruned (some version) ds id ≡ false
  unfolding is_pruned
  kept-not_pruned ds id h = ground arith

  pub snapshot-kept_version :
      (v : VersionRow)
      → find_where (version_row entry version) db.versions ≡ some v
      → Returns
          (λ db'. find_where (version_row entry version) db'.versions ≡ some v)
          (snapshot_version w n entry editor (some version) db)
  unfolding snapshot_version prune
  snapshot-kept_version v found = Returns-bind _ _ λ _ _. Returns-bind _ _ λ r hr.
      Returns-bind _ _ λ _ _. Returns-bind _ _ λ _ _. Returns-bind _ _ λ _ _. Returns-some (
        find-delete (version_row entry version) _ _ (λ x h. kept-not_pruned _ x.id (ground arith))
        ∙ ground (
          arith,
          find-append (version_row entry version) db.versions
              (version_of_entry w (w.uuid n) editor r ∷ []),
        ))

  pub snapshot-kept_keys :
      (u : ℕ)
      → version ≢ w.uuid n
      → Returns
          (λ db'.
            find_where (key_of version u) db'.version_keys
            ≡ find_where (key_of version u) db.version_keys)
          (snapshot_version w n entry editor (some version) db)
  unfolding snapshot_version prune
  snapshot-kept_keys u ne = Returns-bind _ _ λ _ _. Returns-bind _ _ λ r hr. Returns-bind _ _ λ _ _.
      Returns-bind _ _ λ _ _. Returns-bind _ _ λ _ _. Returns-some (
        find-delete (key_of version u) _ _ (λ x h. kept-not_pruned _ x.holder (ground arith))
        ∙ ground (
          arith,
          find-append (key_of version u) db.version_keys (copy_keys (w.uuid n) entry db.entry_keys),
          find-copy_keys_other version (w.uuid n) entry u db.entry_keys ne,
        ))
