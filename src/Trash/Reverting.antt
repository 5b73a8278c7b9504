-- ===== src/Trash/Reverting.antt =====
-- What a successful RestoreVersion does: the version's payload and keys are the entry's again, and
-- the state of before is recorded in the history.
use mathlib.Core.Option.{some-injective}
use mathlib.Core.Path.{ap₂}
use passbubble.Prelude.{
  if◌then◌else◌, is_some, exists_mono, ℕ, ◌+◌, ◌≤◌, false, Option, none, some, List, ◌≡◌, ◌≢◌, refl,
  sym, ap, ◌∙◌, inl, inr, arith, ◌==◌, find_where, update_where, exists_where, find-update,
  find_sound, exists_where_lem, Option-cases, subst, tally,
}
use passbubble.Store.{
  World, Db, Claims, EntryRow, VersionRow, KeyRow, key_of, reply, Returns, Returns-bind,
  Returns-some,
}
use passbubble.Entries.History.{version_of, snapshot_version, max_versions_per_entry}
use passbubble.Entries.History.Snapshot.{
  IsFresh, Recorded, snapshot-Recorded, snapshot-bound, kept_count,
}
use passbubble.Entries.History.Kept.{version_row, snapshot-kept_version, snapshot-kept_keys}
use passbubble.Entries.Untouched.{snapshot-Untouched}
use passbubble.Trash.{revert, revert_key, revert_entry, revert_keys, restore_version}

-- The key of a user who has one now: the version's, if the user had one then.
abbrev pub restored_key : Option KeyRow → Option KeyRow → Option KeyRow
restored_key none old = none
restored_key (some k) none = some k
restored_key (some k) (some vk) = some (record k { encrypted_key = vk.encrypted_key })

-- A successful restore went through its three steps.
restore_version-steps :
    (w : World) (caller : Claims) (entry version : ℕ) (db db' : Db)
    → restore_version w caller entry version db ≡ (db', reply 204 tt)
    → (db₁ : Db) × (db₂ : Db) × (snapshot_version w 2 entry caller.user_id (some version) db
        ≡ some db₁)
      × (revert_entry w entry version db₁ ≡ some db₂)
      × (revert_keys w entry version db₂ ≡ some db')
unfolding restore_version
restore_version-steps w caller entry version db db' h =
    elim (Option-cases (snapshot_version w 2 entry caller.user_id (some version) db)) [
      | inl e₁ ↦ absurd (ground arith)
      | inr (db₁, h₁) ↦ elim (Option-cases (revert_entry w entry version db₁)) [
        | inl e₂ ↦ absurd (ground arith)
        | inr (db₂, h₂) ↦ (db₁, db₂, h₁, h₂, ground arith)
      ]
    ]

revert_key-same :
    (vks : List KeyRow) (version u entry : ℕ) (k : KeyRow)
    → key_of entry u (revert_key vks version k) ≡ key_of entry u k
unfolding revert_key
revert_key-same vks version u entry k = ground arith

-- What the update makes of the row that is found for the user.
revert_key-found :
    (vks : List KeyRow) (version u : ℕ) (k : KeyRow)
    → u ≡ k.user_id
    → some (revert_key vks version k) ≡ restored_key (some k) (find_where (key_of version u) vks)
unfolding revert_key
revert_key-found vks version u k h = rw h (ground arith)

module _ (w : World) (entry version : ℕ) (e : EntryRow) (v : VersionRow) (db : Db) where
  -- The entry's row is the version's, and nothing else is written.
  revert_entry-lem :
      find_where (λ r. r.id == entry) db.entries ≡ some e
      → find_where (version_row entry version) db.versions ≡ some v
      → Returns
          (λ d.
            (find_where (λ r. r.id == entry) d.entries ≡ some (revert w v e))
            × (d.entry_keys ≡ db.entry_keys)
            × (d.versions ≡ db.versions)
            × (d.version_keys ≡ db.version_keys))
          (revert_entry w entry version db)
  unfolding revert_entry
  revert_entry-lem found old = Returns-bind _ _ λ _ _. Returns-bind _ _ λ x hx.
      Returns-bind _ _ λ _ _. Returns-some (
        ground (
          arith,
          find-update (λ (r : EntryRow). r.id == entry) (λ (r : EntryRow). r.id == entry)
              (revert w x) db.entries (unfold revert in λ r. refl),
          find_sound (λ (r : EntryRow). r.id == entry) db.entries {a = e} found,
        ),
        refl,
        refl,
        refl,
      )

  reverted_row :
      (u : ℕ) (o : Option KeyRow)
      → find_where (key_of entry u) db.entry_keys ≡ o
      → (elim o [
        | none ↦ none
        | some k ↦ some (if k.holder == entry then revert_key db.version_keys version k else k)
      ])
        ≡ restored_key o (find_where (key_of version u) db.version_keys)
  reverted_row u none h = refl
  reverted_row u (some k) h = ground (
    arith,
    find_sound (key_of entry u) db.entry_keys {a = k} h,
    revert_key-found db.version_keys version u k,
  )

  reverted :
      (u : ℕ) (o : Option KeyRow)
      → find_where (key_of entry u) db.entry_keys ≡ o
      → find_where
          (key_of entry u)
          (update_where (λ k. k.holder == entry) (revert_key db.version_keys version) db.entry_keys)
        ≡ restored_key o (find_where (key_of version u) db.version_keys)
  reverted u o h = ground (
    arith,
    find-update (key_of entry u) (λ (k : KeyRow). k.holder == entry)
        (revert_key db.version_keys version) db.entry_keys
        (λ k. revert_key-same db.version_keys version u entry k),
    reverted_row u o h,
  )

  revert_keys-lem :
      (u : ℕ)
      → Returns
          (λ d.
            (find_where (key_of entry u) d.entry_keys
              ≡ restored_key
                  (find_where (key_of entry u) db.entry_keys)
                  (find_where (key_of version u) db.version_keys))
            × (d.entries ≡ db.entries)
            × (d.versions ≡ db.versions)
            × (d.version_keys ≡ db.version_keys))
          (revert_keys w entry version db)
  unfolding revert_keys
  revert_keys-lem u = Returns-bind _ _ λ _ _. Returns-bind _ _ λ _ _.
      Returns-some (reverted u (find_where (key_of entry u) db.entry_keys) refl, refl, refl, refl)

other_id :
    (w : World) (entry version : ℕ) (v : VersionRow) (db : Db)
    → exists_where (λ x. x.id == w.uuid 2) db.versions ≡ false
    → find_where (version_row entry version) db.versions ≡ some v
    → version ≢ w.uuid 2
other_id w entry version v db none_yet found eq = ground (
  arith,
  exists_where_lem (version_row entry version) db.versions,
  exists_mono (version_row entry version) (λ (x : VersionRow). x.id == w.uuid 2) db.versions
      (λ x h. ground arith),
)

-- If the id drawn for the version is new, the entry's earlier versions are older than the
-- request, and the entry and the version of it exist, then after a RestoreVersion answered 204
-- the entry's row is the one of before but for the version's name, payload and nonce, the
-- version's url where it has one, and the time of the change; every user who holds a key now and
-- held one at the version has that key back, and all other users' keys are as they were; the row
-- and the keys of before are recorded in the history; and at most 20 versions are left besides
-- rows with the restored version's id.
pub restore_version-restores :
    (w : World) (caller : Claims) (entry version : ℕ) (db db' : Db) (e : EntryRow) (v : VersionRow)
    → IsFresh w (w.uuid 2) entry db
    → find_where (λ r. r.id == entry) db.entries ≡ some e
    → find_where (version_row entry version) db.versions ≡ some v
    → restore_version w caller entry version db ≡ (db', reply 204 tt)
    → (find_where (λ r. r.id == entry) db'.entries
        ≡ some record e {
          name = v.name;
          url = if is_some v.url then v.url else e.url;
          encrypted_data = v.encrypted_data;
          data_nonce = v.data_nonce;
          updated_at = w.now;
        })
      × ((u : ℕ)
          → find_where (key_of entry u) db'.entry_keys
            ≡ restored_key
                (find_where (key_of entry u) db.entry_keys)
                (find_where (key_of version u) db.version_keys))
      × Recorded w (w.uuid 2) caller.user_id e db db'
      × (tally (version_of entry) db'.versions
          ≤ max_versions_per_entry + kept_count entry (some version) db)
unfolding revert
restore_version-restores w caller entry version db db' e v fresh found old h =
    let (db₁, db₂, h₁, h₂, h₃) = restore_version-steps w caller entry version db db' h in
    let snap = (snapshot-Untouched entry w 2 entry caller.user_id (some version) db).at db₁ h₁ in
    let ne : version ≢ w.uuid 2 = other_id w entry version v db fresh.no_version old in
    let old₁ = (snapshot-kept_version w 2 entry caller.user_id version db v old).at db₁ h₁ in
    let (row, keys, vs, vks) =
      (revert_entry-lem w entry version e v db₁ (snap.entry ∙ found) old₁).at db₂ h₂ in
    let rest = λ (u : ℕ). (revert_keys-lem w entry version e v db₂ u).at db' h₃ in
    let recorded =
      (snapshot-Recorded w 2 entry caller.user_id (some version) db fresh e found).at db₁ h₁ in
    let bound =
      (snapshot-bound w 2 entry caller.user_id (some version) db
          (λ p. ne (some-injective version (w.uuid 2) p))).at
        db₁ h₁ in
    (
      ap (find_where (λ r. r.id == entry)) (rest 0).1 ∙ row,
      λ u.
          (rest u).0
          ∙ ap₂ restored_key (ap (find_where (key_of entry u)) keys ∙ snap.key u) (
              ap (find_where (key_of version u)) vks
              ∙ (snapshot-kept_keys w 2 entry caller.user_id version db u ne).at db₁ h₁),
      record {
        version = ap (find_where (λ x. x.id == w.uuid 2)) ((rest 0).2 ∙ vs) ∙ recorded.version;
        keys = λ u. ap (find_where (key_of (w.uuid 2) u)) ((rest 0).3 ∙ vks) ∙ recorded.keys u;
      },
      subst
          (λ rows.
            tally (version_of entry) rows
            ≤ max_versions_per_entry + kept_count entry (some version) db)
          (sym ((rest 0).2 ∙ vs)) bound,
    )
