-- ===== src/Entries/History/Pruning.antt =====
-- How much history an entry keeps, and what a snapshot keeps of it.
use passbubble.Prelude.{
  ℕ, ◌+◌, ◌≤◌, ◌<◌, Bool, true, false, not, ◌&&◌, Option, List, [], ◌∷◌, ◌++◌, ◌≡◌, refl, arith,
  ◌==◌, exists_where, select_where, order_by, All, All-imp, tally, tally-select, tally-delete,
  tally-order_by, tally-le-cut, tally-drop-le, tally_mono, insert_by, exists-drop, exists-order_by,
  exists-select, ◌∙◌,
}
use passbubble.Store.{Db, VersionRow}
use passbubble.Entries.History.{
  version_of, newer, surplus, is_kept, is_pruned, prune, max_versions_per_entry,
}

-- Every row is among the rows.
All-listed : (ds : List VersionRow) → All (λ v. exists_where (λ d. d.id == v.id) ds ≡ true) ds
unfolding exists_where
All-listed [] = tt
All-listed (d ∷ ds) = (ground arith, All-imp ds (λ v h. ground arith) (All-listed ds))

-- A surplus row that survives is the kept one.
survivor-kept :
    (keep : Option ℕ) (ds : List VersionRow)
    → All (λ v. not (is_pruned keep ds v.id) ≡ true → is_kept keep v.id ≡ true) ds
unfolding is_pruned
survivor-kept keep ds = All-imp ds (λ v h. ground arith) (All-listed ds)

-- After pruning an entry has at most `max_versions_per_entry` versions, not counting the kept one.
pub prune-bound :
    (entry : ℕ) (keep : Option ℕ) (db : Db)
    → tally (version_of entry) (prune entry keep db).versions
      ≤ max_versions_per_entry + tally (λ v. version_of entry v && is_kept keep v.id) db.versions
unfolding prune surplus
prune-bound entry keep db =
    let doomed : List VersionRow = surplus entry db.versions in
    let p : VersionRow → Bool = version_of entry in
    let stays : VersionRow → Bool = λ v. not (is_pruned keep doomed v.id) in
    let kept : VersionRow → Bool = λ v. is_kept keep v.id in
    let mine : List VersionRow = select_where p db.versions in
    let sorted : List VersionRow = order_by newer mine in
    omega (
      arith,
      tally-delete p (λ v. is_pruned keep doomed v.id) db.versions,
      tally-select p stays db.versions,
      tally-select p kept db.versions,
      tally-order_by stays newer mine,
      tally-order_by kept newer mine,
      tally-le-cut stays max_versions_per_entry sorted,
      tally-drop-le kept max_versions_per_entry sorted,
      tally_mono stays kept doomed (survivor-kept keep doomed),
    )

module _ (x : VersionRow) where
  -- A row that is newer than all others comes first.
  insert_by-newest :
      (v : VersionRow) (ys : List VersionRow)
      → v.created_at < x.created_at
      → insert_by newer v (x ∷ ys) ≡ x ∷ insert_by newer v ys
  unfolding insert_by
  insert_by-newest v ys h = ground arith

  order_by-newest :
      (vs : List VersionRow)
      → All (λ v. v.created_at < x.created_at) vs
      → order_by newer (vs ++ x ∷ []) ≡ x ∷ order_by newer vs
  unfolding order_by insert_by
  order_by-newest [] h = refl
  order_by-newest (v ∷ vs) h =
      rw (order_by-newest vs h.1) (insert_by-newest v (order_by newer vs) h.0)

select-append_hit :
    (p : VersionRow → Bool) (vs : List VersionRow) (x : VersionRow)
    → p x ≡ true
    → select_where p (vs ++ x ∷ []) ≡ select_where p vs ++ x ∷ []
unfolding select_where
select-append_hit p [] x h = ground arith
select-append_hit p (v ∷ vs) x h = ground (arith, select-append_hit p vs x)

-- The newest version, under a fresh id, is never surplus.
pub newest-not_surplus :
    (entry : ℕ) (vs : List VersionRow) (x : VersionRow)
    → x.entry_id ≡ entry
    → All (λ v. v.created_at < x.created_at) (select_where (version_of entry) vs)
    → exists_where (λ v. v.id == x.id) vs ≡ false
    → exists_where (λ d. d.id == x.id) (surplus entry (vs ++ x ∷ [])) ≡ false
unfolding surplus
newest-not_surplus entry vs x mine older fresh =
    let old : List VersionRow = select_where (version_of entry) vs in
    rw (select-append_hit (version_of entry) vs x (ground arith), order_by-newest x old older)
      (exists-drop _ 19 (order_by newer old)
        (exists-order_by _ newer old ∙ exists-select _ (version_of entry) vs fresh))
