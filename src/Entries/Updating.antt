-- ===== src/Entries/Updating.antt =====
-- What a successful UpdateEntry does: the entry's row, and the history behind it.
use passbubble.Prelude.{
  ℕ, suc, ◌≤◌, String, true, false, Option, none, some, List, [], ◌∷◌, ◌≡◌, refl, sym, ◌∙◌, inl,
  inr, arith, ◌==◌, str_eq, if◌then◌else◌, is_some, find_where, find-update, update_where,
  find_sound, ap, subst, tally, Option-cases,
}
use passbubble.Store.{
  World, Db, Claims, EntryRow, key_of, reply, Returns, Returns-bind, Returns-some, IdText,
}
use passbubble.Entries.History.{version_of, snapshot_version, max_versions_per_entry}
use passbubble.Entries.History.Snapshot.{
  IsFresh, Recorded, snapshot-Recorded, snapshot-bound, kept_count-none,
}
use passbubble.Entries.Untouched.{snapshot-Untouched}
use passbubble.Entries.{
  EntryKey, UpdateEntryRequest, upsert_key, upsert_keys_tx, update_columns, update_rest, patch,
  decode_if, snapshot_if_replaced, update_entry,
}

-- The history, and what a snapshot reads, are as they were.
record SameHistory (before after : Db) : Type 0 where
  versions : after.versions ≡ before.versions
  version_keys : after.version_keys ≡ before.version_keys

SameHistory-trans : {a b c : Db} → SameHistory a b → SameHistory b c → SameHistory a c
SameHistory-trans h k = record {
  versions = k.versions ∙ h.versions;
  version_keys = k.version_keys ∙ h.version_keys;
}

upsert_key-SameHistory :
    (w : World) (n entry : ℕ) (user : IdText) (key : String) (db : Db)
    → Returns (λ d. SameHistory db d × (d.entries ≡ db.entries)) (upsert_key w n entry user key db)
unfolding upsert_key
upsert_key-SameHistory w n entry user key db = Returns-bind _ _ λ _ _. Returns-bind _ _ λ u _.
    Returns-bind _ _ λ k _.
      Returns-bind _ _ λ _ _. Returns-some (record { versions = refl; version_keys = refl }, refl)

upsert_keys_tx-SameHistory :
    (w : World) (n entry : ℕ) (keys : List EntryKey) (db : Db)
    → Returns (λ d. SameHistory db d × (d.entries ≡ db.entries)) (upsert_keys_tx w n entry keys db)
unfolding upsert_keys_tx
upsert_keys_tx-SameHistory w n entry [] db =
    Returns-some (record { versions = refl; version_keys = refl }, refl)
upsert_keys_tx-SameHistory w n entry (k ∷ ks) db = Returns-bind _ _ λ db₁ h₁. record {
  at = λ db₂ h₂.
      let (s, p) = (upsert_key-SameHistory w n entry k.user_id k.encrypted_key db).at db₁ h₁ in
      let (t, q) = (upsert_keys_tx-SameHistory w (suc n) entry ks db₁).at db₂ h₂ in
      (SameHistory-trans s t, q ∙ p);
}

-- The row of an updated entry: what the request names is new, and all else is kept.
pub record Patched (w : World) (req : UpdateEntryRequest) (e e' : EntryRow) : Type 0 where
  pub payload :
      str_eq req.encrypted_data "" ≡ false → w.decode64 req.encrypted_data ≡ some e'.encrypted_data
  pub payload_kept : str_eq req.encrypted_data "" ≡ true → e'.encrypted_data ≡ e.encrypted_data
  pub name : e'.name ≡ (if str_eq req.name "" then e.name else req.name)
  pub url : e'.url ≡ (if is_some req.url then req.url else e.url)
  pub owner : e'.owner_id ≡ e.owner_id
  pub trash : e'.deleted_at ≡ e.deleted_at
  pub stamped : e'.updated_at ≡ w.now

abbrev pub IsPatched : World → ℕ → UpdateEntryRequest → EntryRow → Db → Type 0
IsPatched w entry req e d =
    (e' : EntryRow) × (find_where (λ r. r.id == entry) d.entries ≡ some e') × Patched w req e e'

find-patched :
    (w : World) (entry : ℕ) (req : UpdateEntryRequest) (folder : Option ℕ) (payload nonce : List ℕ)
    (e : EntryRow) (db : Db)
    → find_where (λ r. r.id == entry) db.entries ≡ some e
    → find_where
        (λ r. r.id == entry)
        (update_where (λ r. r.id == entry) (patch w req folder payload nonce) db.entries)
      ≡ some (patch w req folder payload nonce e)
find-patched w entry req folder payload nonce e db found = ground (
  arith,
  find-update (λ (r : EntryRow). r.id == entry) (λ (r : EntryRow). r.id == entry)
      (patch w req folder payload nonce) db.entries (unfold patch in λ r. refl),
  find_sound (λ (r : EntryRow). r.id == entry) db.entries {a = e} found,
)

patch-Patched :
    (w : World) (req : UpdateEntryRequest) (folder : Option ℕ) (payload nonce : List ℕ)
    (e : EntryRow)
    → decode_if w req.encrypted_data ≡ some payload
    → Patched w req e (patch w req folder payload nonce e)
unfolding patch decode_if
patch-Patched w req folder payload nonce e h = ground arith

update_columns-Patched :
    (w : World) (n entry : ℕ) (req : UpdateEntryRequest) (db : Db) (e : EntryRow)
    → find_where (λ r. r.id == entry) db.entries ≡ some e
    → Returns (λ d. SameHistory db d × IsPatched w entry req e d) (update_columns w n entry req db)
unfolding update_columns
update_columns-Patched w n entry req db e found = Returns-bind _ _ λ _ _.
    Returns-bind _ _ λ folder _. Returns-bind _ _ λ payload hp. Returns-bind _ _ λ nonce _.
      Returns-some (
        record { versions = refl; version_keys = refl },
        (
          patch w req folder payload nonce e,
          find-patched w entry req folder payload nonce e db found,
          patch-Patched w req folder payload nonce e hp,
        ),
      )

update_rest-Patched :
    (w : World) (entry : ℕ) (req : UpdateEntryRequest) (db : Db) (e : EntryRow)
    → find_where (λ r. r.id == entry) db.entries ≡ some e
    → Returns (λ d. SameHistory db d × IsPatched w entry req e d) (update_rest w entry req db)
unfolding update_rest
update_rest-Patched w entry req db e found = Returns-bind _ _ λ db₁ h₁. Returns-bind _ _ λ db₂ h₂.
    Returns-bind _ _ λ _ _.
      let (s, p) = (update_columns-Patched w 5 entry req db e found).at db₁ h₁ in
      let (t, q) = (upsert_keys_tx-SameHistory w 7 entry req.entry_keys db₁).at db₂ h₂ in
      Returns-some (SameHistory-trans s t, (p.0, ap (find_where (λ r. r.id == entry)) q ∙ p.1, p.2))

-- A successful update went through its two steps.
update_entry-steps :
    (w : World) (caller : Claims) (entry : ℕ) (req : UpdateEntryRequest) (db db' : Db)
    → update_entry w caller entry (some req) db ≡ (db', reply 204 tt)
    → (db₁ : Db) × (snapshot_if_replaced w entry caller.user_id req db ≡ some db₁)
      × (update_rest w entry req db₁ ≡ some db')
unfolding update_entry
update_entry-steps w caller entry req db db' h =
    elim (Option-cases (snapshot_if_replaced w entry caller.user_id req db)) [
      | inl e₁ ↦ absurd (ground arith)
      | inr (db₁, h₁) ↦ (db₁, h₁, ground arith)
    ]

snapshot-taken :
    (w : World) (entry user : ℕ) (req : UpdateEntryRequest) (db db₁ : Db)
    → str_eq req.encrypted_data "" ≡ false
    → snapshot_if_replaced w entry user req db ≡ some db₁
    → snapshot_version w 2 entry user none db ≡ some db₁
unfolding snapshot_if_replaced
snapshot-taken w entry user req db db₁ filled h = ground arith

Recorded-later :
    {w : World} {id editor : ℕ} {e : EntryRow} {a b c : Db}
    → SameHistory b c
    → Recorded w id editor e a b
    → Recorded w id editor e a c
Recorded-later {id = id} s r = record {
  version = ap (find_where (λ v. v.id == id)) s.versions ∙ r.version;
  keys = λ u. ap (find_where (key_of id u)) s.version_keys ∙ r.keys u;
}

-- If the id drawn for the version is new, the entry's earlier versions are older than the
-- request, the entry exists and the request replaces the payload, then an UpdateEntry answered
-- 204 has recorded in the history, under that id, the name, url, payload and nonce of before with
-- the editor and the time, and a copy of every key of before; it has patched the row (payload
-- decoded, name and url replaced only where named, owner and trash mark kept), and leaves at most
-- 20 versions of the entry.
pub update_entry-Recorded :
    (w : World) (caller : Claims) (entry : ℕ) (req : UpdateEntryRequest) (db db' : Db)
    (e : EntryRow)
    → IsFresh w (w.uuid 2) entry db
    → find_where (λ r. r.id == entry) db.entries ≡ some e
    → str_eq req.encrypted_data "" ≡ false
    → update_entry w caller entry (some req) db ≡ (db', reply 204 tt)
    → Recorded w (w.uuid 2) caller.user_id e db db'
      × IsPatched w entry req e db'
      × (tally (version_of entry) db'.versions ≤ max_versions_per_entry)
update_entry-Recorded w caller entry req db db' e fresh found filled h =
    let (db₁, h₁, h₂) = update_entry-steps w caller entry req db db' h in
    let taken : snapshot_version w 2 entry caller.user_id none db ≡ some db₁ =
      snapshot-taken w entry caller.user_id req db db₁ filled h₁ in
    let found₁ : find_where (λ r. r.id == entry) db₁.entries ≡ some e =
      ((snapshot-Untouched entry w 2 entry caller.user_id none db).at db₁ taken).entry ∙ found in
    let (s, p) = (update_rest-Patched w entry req db₁ e found₁).at db' h₂ in
    let recorded : Recorded w (w.uuid 2) caller.user_id e db db₁ =
      (snapshot-Recorded w 2 entry caller.user_id none db fresh e found).at db₁ taken in
    let bound : tally (version_of entry) db₁.versions ≤ max_versions_per_entry = omega (
      arith,
      (snapshot-bound w 2 entry caller.user_id none db (cc)).at db₁ taken,
      kept_count-none entry db,
    ) in
    (
      Recorded-later s recorded,
      p,
      subst (λ vs. tally (version_of entry) vs ≤ max_versions_per_entry) (sym s.versions) bound,
    )
