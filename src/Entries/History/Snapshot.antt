-- ===== src/Entries/History/Snapshot.antt =====
-- What a snapshot records: the entry as it was, and every key to it.
use mathlib.Core.Option.{some-injective}
use passbubble.Prelude.{
  ℕ, ◌+◌, ◌≤◌, ◌<◌, true, false, ◌&&◌, Option, none, some, List, [], ◌∷◌, ◌++◌, ◌≡◌, refl, sym, ◌∙◌,
  arith, ◌==◌, ==_refl, exists_where, subst, ==_iff, find_where, select_where, find-delete,
  find-append_hit, find-append, exists_where_lem, All, tally, tally_none, tally-append_one, ◌≢◌,
  find_sound,
}
use passbubble.Store.{
  World, Db, EntryRow, VersionRow, KeyRow, key_of, Returns, Returns-bind, Returns-some,
}
use passbubble.Entries.History.{
  version_of, version_of_entry, copy_keys, surplus, is_kept, is_pruned, prune, snapshot_version,
  max_versions_per_entry,
}
use passbubble.Entries.History.Pruning.{prune-bound, newest-not_surplus}

-- The key row of a holder, under another holder.
abbrev pub rehold : ℕ → Option KeyRow → Option KeyRow
rehold holder none = none
rehold holder (some k) = some (record k { holder = holder })

find-copy_keys :
    (version entry u : ℕ) (keys : List KeyRow)
    → find_where (key_of version u) (copy_keys version entry keys)
      ≡ rehold version (find_where (key_of entry u) keys)
unfolding copy_keys find_where select_where
find-copy_keys version entry u [] = refl
find-copy_keys version entry u (k ∷ ks) = ground (arith, find-copy_keys version entry u ks)

-- The id is new to the history, and the history is older than the transaction.
pub record IsFresh (w : World) (id entry : ℕ) (db : Db) : Type 0 where
  pub no_version : exists_where (λ v. v.id == id) db.versions ≡ false
  pub no_keys : (u : ℕ) → find_where (key_of id u) db.version_keys ≡ none
  pub older : All (λ v. v.created_at < w.now) (select_where (version_of entry) db.versions)

-- The history after a snapshot under `id` of the entry's row `e`.
pub record Recorded (w : World) (id editor : ℕ) (e : EntryRow) (before after : Db) : Type 0 where
  pub version :
      find_where (λ v. v.id == id) after.versions
      ≡ some record {
        id = id;
        entry_id = e.id;
        name = e.name;
        url = e.url;
        encrypted_data = e.encrypted_data;
        data_nonce = e.data_nonce;
        edited_by = some editor;
        created_at = w.now;
      }
  pub keys :
      (u : ℕ)
      → find_where (key_of id u) after.version_keys
        ≡ rehold id (find_where (key_of e.id u) before.entry_keys)

Recorded-eq :
    {w : World} {id editor : ℕ} {r e : EntryRow} {before after : Db}
    → r ≡ e
    → Recorded w id editor r before after
    → Recorded w id editor e before after
Recorded-eq {w} {id} {editor} {before = before} {after = after} p h =
    subst (λ x. Recorded w id editor x before after) p h

module _ (w : World) (n entry editor : ℕ) (keep : Option ℕ) (db : Db)
    (fresh : IsFresh w (w.uuid n) entry db) (e : EntryRow)
    (found : find_where (λ r. r.id == entry) db.entries ≡ some e) where
  same_entry : e.id ≡ entry
  same_entry = ground (arith, find_sound (λ (r : EntryRow). r.id == entry) db.entries {a = e} found)

  unfoldable pub snapshot_row : VersionRow
  unfolding version_of_entry
  snapshot_row = version_of_entry w (w.uuid n) editor e

  not_pruned : is_pruned keep (surplus entry (db.versions ++ snapshot_row ∷ [])) (w.uuid n) ≡ false
  unfolding is_pruned snapshot_row
  not_pruned = ground (
    arith,
    same_entry,
    newest-not_surplus entry db.versions snapshot_row same_entry fresh.older fresh.no_version,
  )

  -- A row under the new id is not pruned.
  id_not_pruned :
      (id : ℕ)
      → (id == w.uuid n) ≡ true
      → is_pruned keep (surplus entry (db.versions ++ snapshot_row ∷ [])) id ≡ false
  id_not_pruned id h =
      subst (λ i. is_pruned keep (surplus entry (db.versions ++ snapshot_row ∷ [])) i ≡ false)
        (sym ((==_iff id (w.uuid n)).0 h)) not_pruned

  no_version : find_where (λ v. v.id == w.uuid n) db.versions ≡ none
  no_version =
      ground (
        arith,
        fresh.no_version,
        exists_where_lem (λ (v : VersionRow). v.id == w.uuid n) db.versions,
      )

  prune-Recorded : Recorded w (w.uuid n) editor e db (
      prune entry keep (record db {
        versions = db.versions ++ snapshot_row ∷ [];
        version_keys = db.version_keys ++ copy_keys (w.uuid n) entry db.entry_keys;
      }))
  unfolding prune snapshot_row
  prune-Recorded = record {
    version =
        find-delete (λ v. v.id == w.uuid n) _ (db.versions ++ snapshot_row ∷ [])
          (λ v h. id_not_pruned v.id h)
        ∙ find-append_hit (λ v. v.id == w.uuid n) db.versions snapshot_row no_version
            (==_refl (w.uuid n));
    keys = λ u.
        find-delete (key_of (w.uuid n) u) _ _ (λ k h. id_not_pruned k.holder (ground arith))
        ∙ ground (
          arith,
          same_entry,
          fresh.no_keys u,
          find-append (key_of (w.uuid n) u) db.version_keys
              (copy_keys (w.uuid n) entry db.entry_keys),
          find-copy_keys (w.uuid n) entry u db.entry_keys,
        );
  }

module _ (w : World) (n entry editor : ℕ) (keep : Option ℕ) (db : Db)
    (fresh : IsFresh w (w.uuid n) entry db) where
  -- Where a snapshot is taken, it records the entry and its keys under the id drawn.
  pub snapshot-Recorded :
      (e : EntryRow)
      → find_where (λ r. r.id == entry) db.entries ≡ some e
      → Returns (Recorded w (w.uuid n) editor e db) (snapshot_version w n entry editor keep db)
  unfolding snapshot_version snapshot_row
  snapshot-Recorded e found = Returns-bind _ _ λ _ _. Returns-bind _ _ λ r hr.
      Returns-bind _ _ λ _ _. Returns-bind _ _ λ _ _. Returns-bind _ _ λ _ _. Returns-some (
        Recorded-eq (some-injective r e (sym hr ∙ found))
          (prune-Recorded w n entry editor keep db fresh r hr))

-- How many of an entry's versions are to be kept whatever their age.
abbrev pub kept_count : ℕ → Option ℕ → Db → ℕ
kept_count entry keep db = tally (λ v. version_of entry v && is_kept keep v.id) db.versions

pub kept_count-none : (entry : ℕ) (db : Db) → kept_count entry none db ≡ 0
kept_count-none entry db = tally_none _ db.versions (λ v. ground arith)

-- Besides those, an entry has at most `max_versions_per_entry` versions after a snapshot.
pub snapshot-bound :
    (w : World) (n entry editor : ℕ) (keep : Option ℕ) (db : Db)
    → keep ≢ some (w.uuid n)
    → Returns
        (λ db'.
          tally (version_of entry) db'.versions ≤ max_versions_per_entry + kept_count entry keep db)
        (snapshot_version w n entry editor keep db)
unfolding snapshot_version version_of_entry
snapshot-bound w n entry editor keep db ne = Returns-bind _ _ λ _ _. Returns-bind _ _ λ r hr.
    Returns-bind _ _ λ _ _. Returns-bind _ _ λ _ _. Returns-bind _ _ λ _ _. Returns-some (
      ground (
        arith,
        prune-bound entry keep (record db {
          versions = db.versions ++ version_of_entry w (w.uuid n) editor r ∷ [];
          version_keys = db.version_keys ++ copy_keys (w.uuid n) entry db.entry_keys;
        }),
        tally-append_one (λ v. version_of entry v && is_kept keep v.id) db.versions
            (version_of_entry w (w.uuid n) editor r),
      ))
