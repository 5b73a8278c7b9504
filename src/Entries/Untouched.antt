-- ===== src/Entries/Untouched.antt =====
-- What the statements of the entry handlers leave alone: the row, the keys and the permissions of
-- every entry but the one that they name.
use passbubble.Prelude.{
  ℕ, suc, String, Bool, true, false, Option, none, some, List, [], ◌∷◌, ◌≡◌, ◌≢◌, refl, ◌∙◌, arith,
  ◌==◌, find_where, update_where, find-update_disjoint,
}
use passbubble.Store.{
  World, Db, IdText, EntryRow, of_user, key_of, put_key, put_permission, find-put_key_other,
  find-put_permission_other, Returns, Returns-bind, Returns-some, Returns-none, Returns-if,
}
use passbubble.Entries.History.{snapshot_version, prune}
use passbubble.Entries.{
  EntryKey, UpdateEntryRequest, upsert_key, insert_keys, grant, patch, update_columns,
  upsert_keys_tx, snapshot_if_replaced, update_rest,
}
use passbubble.Store.{or_keep}

-- The row of an entry, and every key and permission on it, are as they were.
pub record Untouched (e : ℕ) (before after : Db) : Type 0 where
  pub entry : find_where (λ r. r.id == e) after.entries ≡ find_where (λ r. r.id == e) before.entries
  pub key :
      (u : ℕ) → find_where (key_of e u) after.entry_keys ≡ find_where (key_of e u) before.entry_keys
  pub permission :
      (u : ℕ)
      → find_where (of_user e u) after.entry_permissions
        ≡ find_where (of_user e u) before.entry_permissions

pub Untouched-refl : (e : ℕ) (db : Db) → Untouched e db db
Untouched-refl e db = record { entry = refl; key = λ u. refl; permission = λ u. refl }

pub Untouched-trans : {e : ℕ} {a b c : Db} → Untouched e a b → Untouched e b c → Untouched e a c
Untouched-trans h k = record {
  entry = k.entry ∙ h.entry;
  key = λ u. k.key u ∙ h.key u;
  permission = λ u. k.permission u ∙ h.permission u;
}

pub or_keep-Untouched :
    (e : ℕ) (db : Db) (o : Option Db) → Returns (Untouched e db) o → Untouched e db (or_keep db o)
or_keep-Untouched e db none h = Untouched-refl e db
or_keep-Untouched e db (some db') h = h.at db' refl

-- The keys of another holder change.
pub put_key-Untouched :
    (e holder user : ℕ) (key : List ℕ) (db : Db)
    → e ≢ holder
    → Untouched e db (record db { entry_keys = put_key holder user key db.entry_keys })
put_key-Untouched e holder user key db ne = record {
  entry = refl;
  key = λ u. find-put_key_other e u holder user key db.entry_keys ne;
  permission = λ u. refl;
}

pub put_permission-Untouched :
    (e resource user : ℕ) (perm : String) (granter : Option ℕ) (db : Db)
    → e ≢ resource
    → Untouched e db (record db {
      entry_permissions = put_permission resource user perm granter db.entry_permissions;
    })
put_permission-Untouched e resource user perm granter db ne = record {
  entry = refl;
  key = λ u. refl;
  permission =
      λ u. find-put_permission_other e u resource user perm granter db.entry_permissions ne;
}

-- Rows of another entry change.
pub update-Untouched :
    (e : ℕ) (p : EntryRow → Bool) (f : EntryRow → EntryRow) (db : Db)
    → ((r : EntryRow) → (f r).id ≡ r.id)
    → ((r : EntryRow) → (r.id == e) ≡ true → p r ≡ false)
    → Untouched e db (record db { entries = update_where p f db.entries })
update-Untouched e p f db same other = record {
  entry = find-update_disjoint (λ r. r.id == e) p f db.entries (λ r. rw (same r)) other;
  key = λ u. refl;
  permission = λ u. refl;
}

pub upsert_key-Untouched :
    (e : ℕ) (w : World) (n entry : ℕ) (user : IdText) (key : String) (db : Db)
    → e ≢ entry
    → Returns (Untouched e db) (upsert_key w n entry user key db)
unfolding upsert_key
upsert_key-Untouched e w n entry user key db ne = Returns-bind _ _ λ _ _. Returns-bind _ _ λ u _.
    Returns-bind _ _
      λ k _. Returns-bind _ _ λ _ _. Returns-some (put_key-Untouched e entry u k db ne)

ruleset untouched_rules = (Returns-bind, Returns-some, Returns-none, Untouched-refl)

pub insert_keys-Untouched :
    (e : ℕ) (w : World) (n entry : ℕ) (keys : List EntryKey) (db : Db)
    → e ≢ entry
    → Untouched e db (insert_keys w n entry keys db)
unfolding insert_keys
insert_keys-Untouched e w n entry [] db ne = Untouched-refl e db
insert_keys-Untouched e w n entry (k ∷ ks) db ne =
    Untouched-trans
      (or_keep-Untouched e db _ (upsert_key-Untouched e w n entry k.user_id k.encrypted_key db ne))
      (insert_keys-Untouched e w (suc n) entry ks _ ne)

upsert_keys_tx-Untouched :
    (e : ℕ) (w : World) (n entry : ℕ) (keys : List EntryKey) (db : Db)
    → e ≢ entry
    → Returns (Untouched e db) (upsert_keys_tx w n entry keys db)
unfolding upsert_keys_tx
upsert_keys_tx-Untouched e w n entry [] db ne = Returns-some (Untouched-refl e db)
upsert_keys_tx-Untouched e w n entry (k ∷ ks) db ne = Returns-bind _ _ λ db' h. record {
  at = λ db'' h'.
      Untouched-trans ((upsert_key-Untouched e w n entry k.user_id k.encrypted_key db ne).at db' h)
        ((upsert_keys_tx-Untouched e w (suc n) entry ks db' ne).at db'' h');
}

-- A snapshot writes to the history only.
pub snapshot-Untouched :
    (e : ℕ) (w : World) (n entry editor : ℕ) (keep : Option ℕ) (db : Db)
    → Returns (Untouched e db) (snapshot_version w n entry editor keep db)
unfolding snapshot_version prune
snapshot-Untouched e w n entry editor keep db = Returns-bind _ _ λ _ _. Returns-bind _ _ λ r _.
    Returns-bind _ _ λ _ _. Returns-bind _ _ λ _ _.
      Returns-bind _ _
        λ _ _. Returns-some (record { entry = refl; key = λ u. refl; permission = λ u. refl })

pub snapshot_if-Untouched :
    (e : ℕ) (w : World) (entry user : ℕ) (req : UpdateEntryRequest) (db : Db)
    → Returns (Untouched e db) (snapshot_if_replaced w entry user req db)
unfolding snapshot_if_replaced
snapshot_if-Untouched e w entry user req db =
    Returns-if _ _ _ (Returns-some (Untouched-refl e db))
      (snapshot-Untouched e w 2 entry user none db)

update_columns-Untouched :
    (e : ℕ) (w : World) (n entry : ℕ) (req : UpdateEntryRequest) (db : Db)
    → e ≢ entry
    → Returns (Untouched e db) (update_columns w n entry req db)
unfolding update_columns patch
update_columns-Untouched e w n entry req db ne = Returns-bind _ _ λ _ _.
    Returns-bind _ _ λ folder _. Returns-bind _ _ λ payload _.
      Returns-bind _ _
        λ nonce _. Returns-some (update-Untouched e _ _ db (λ r. refl) (λ r h. ground arith))

pub update_rest-Untouched :
    (e : ℕ) (w : World) (entry : ℕ) (req : UpdateEntryRequest) (db : Db)
    → e ≢ entry
    → Returns (Untouched e db) (update_rest w entry req db)
unfolding update_rest
update_rest-Untouched e w entry req db ne = Returns-bind _ _ λ db₁ h₁. Returns-bind _ _ λ db₂ h₂.
    Returns-bind _ _ λ _ _. Returns-some (
      Untouched-trans ((update_columns-Untouched e w 5 entry req db ne).at db₁ h₁)
        ((upsert_keys_tx-Untouched e w 7 entry req.entry_keys db₁ ne).at db₂ h₂))

pub grant-Untouched :
    (e : ℕ) (w : World) (n entry : ℕ) (user : IdText) (perm : String) (granter : ℕ) (db : Db)
    → e ≢ entry
    → Untouched e db (grant w n entry user perm granter db)
unfolding grant
grant-Untouched e w n entry user perm granter db ne = or_keep-Untouched e db _ (
    Returns-bind _ _ λ _ _.
      Returns-bind _ _
        λ u _. Returns-bind _ _ λ _ _. Returns-some (put_permission-Untouched e entry u _ _ db ne))
