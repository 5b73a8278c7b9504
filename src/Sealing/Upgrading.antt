-- ===== src/Sealing/Upgrading.antt =====
-- The change of an account's keys to the hybrid format: cli/internal/vault/upgrade.go, as calls of
-- the server's handlers. GenerateMLKEM768 is the parameter `generated`, and deriveMasterKey's result
-- the argument `master_key`; each request to the server has its world.
use passbubble.Sealing.{Library, Account, claims_of, answered}
use passbubble.Sealing.Changing.{came_through}
use passbubble.Prelude.{
  ℕ, suc, String, Bool, true, false, not, Option, none, some, List, [], ◌∷◌, ◌==◌, if◌then◌else◌,
  length,
}
use passbubble.Store.{Bytes, World, Db, EntryRow, uuid, ◌>>=◌}
use passbubble.Entries.{UpdateEntryRequest, update_entry}
use passbubble.Reading.{EntryResponse, get_entry, list_entries}
use passbubble.Admin.{UpdateKeysRequest, update_keys}
use passbubble.HybridKeys.{Fresh, encrypt, decrypt, encrypt_data_key, decrypt_data_key}

-- mlkem768PubLen
abbrev pub mlkem768_pub_len : ℕ
mlkem768_pub_len = 1184

-- The vault with the encrypted private keys of its configuration.
pub record Keyring : Type 0 where
  pub account : Account
  pub enc_priv_x25519 : String
  pub enc_priv_mlkem768 : String

-- UpgradeResult
pub record UpgradeResult : Type 0 where
  pub rewrapped : ℕ
  pub failed : List ℕ

-- What UpgradeToHybrid returns: an error, with the result so far where the list of entries failed,
-- or the result.
pub data Upgraded : Type 0 where
  refused : Upgraded
  unlisted : Upgraded
  upgraded : UpgradeResult → Upgraded

-- The worlds of the requests, the last two by entry; and what is drawn to wrap an entry's key.
pub record Requests : Type 0 where
  pub at_keys : World
  pub at_list : World
  pub at_get : ℕ → World
  pub at_update : ℕ → World
  pub drawn : ℕ → Fresh

-- The keys of an account: the private ones as they were, and the public ones to wrap to.
pub record Rewrap : Type 0 where
  pub old_keys : Bytes × Bytes
  pub pub_x25519 : Bytes
  pub new_pub_mlkem : Bytes

module _ (lib : Library) where
  -- NeedsKeyUpgrade
  unfoldable pub needs_key_upgrade : Account → Bool
  needs_key_upgrade v = elim (lib.b64_dec v.pub_mlkem768) [
    | none ↦ true
    | some bytes ↦ not (length bytes == mlkem768_pub_len)
  ]

  -- decryptPrivKeys
  unfoldable pub load_keys : Keyring → Bytes → Option (Bytes × Bytes)
  load_keys k master_key = do
    enc_x ← lib.b64_dec k.enc_priv_x25519
    priv_x ← decrypt lib.primitives master_key enc_x
    enc_m ← lib.b64_dec k.enc_priv_mlkem768
    priv_m ← decrypt lib.primitives master_key enc_m
    some (priv_x, priv_m)

  -- A turn of the loop up to the request: the key that a fetched entry has, wrapped anew; the folder
  -- is sent along.
  unfoldable pub rewrap_key : Rewrap → Fresh → ℕ → EntryResponse → Option UpdateEntryRequest
  rewrap_key r drawn user e = do
    key_text ← e.entry_key
    enc_key ← lib.b64_dec key_text
    data_key ← decrypt_data_key lib.primitives enc_key r.old_keys.0 r.old_keys.1
    new_key ← encrypt_data_key lib.primitives drawn data_key r.pub_x25519 r.new_pub_mlkem
    some record {
      folder_id = elim e.entry.folder_id [ none ↦ none | some f ↦ some (uuid f) ];
      name = "";
      url = none;
      match_patterns = none;
      encrypted_data = "";
      data_nonce = "";
      entry_keys = record { user_id = uuid user; encrypted_key = lib.b64_enc new_key } ∷ [];
    }

  -- A turn of the loop: fetched, wrapped anew and updated.
  unfoldable pub rewrap_entry : Requests → Rewrap → Account → ℕ → Db → Db × Bool
  rewrap_entry rs r v id db = elim (answered (get_entry (rs.at_get id) (claims_of v) id db)) [
    | none ↦ (db, false)
    | some e ↦ elim (rewrap_key r (rs.drawn id) v.user_id e) [
      | none ↦ (db, false)
      | some req ↦
          let (db', answer) = update_entry (rs.at_update id) (claims_of v) id (some req) db in
          (db', came_through answer)
    ]
  ]

  -- res.Rewrapped++, or an id behind res.Failed: the entries come in order, so it stands in front.
  abbrev pub count_turn : ℕ → Bool → UpgradeResult → UpgradeResult
  count_turn id true res = record res { rewrapped = suc res.rewrapped }
  count_turn id false res = record res { failed = id ∷ res.failed }

  -- The loop over the entries.
  unfoldable pub rewrap_entries :
      Requests → Rewrap → Account → List EntryRow → Db → Db × UpgradeResult
  rewrap_entries rs r v [] db = (db, record { rewrapped = 0; failed = [] })
  rewrap_entries rs r v (e ∷ es) db =
      let (db₁, done) = rewrap_entry rs r v e.id db in
      let (db₂, res) = rewrap_entries rs r v es db₁ in (db₂, count_turn e.id done res)

  -- The material that UpgradeToHybrid makes: the request, the keyring afterwards, and what the loop
  -- takes.
  unfoldable pub prepare :
      Option Bytes
      → Option (Bytes × Bytes)
      → Fresh
      → Keyring
      → Option (UpdateKeysRequest × Keyring × Rewrap)
  prepare master_key generated drawn k = do
    key ← master_key
    old ← load_keys k key
    pub_x ← lib.b64_dec k.account.pub_x25519
    new ← generated
    enc_new ← encrypt lib.primitives drawn key (new.0)
    some (
      record {
        pub_x25519 = k.account.pub_x25519;
        pub_mlkem768 = lib.b64_enc (new.1);
        enc_priv_x25519 = k.enc_priv_x25519;
        enc_priv_mlkem768 = lib.b64_enc enc_new;
      },
      record {
        account = record k.account {
          pub_mlkem768 = lib.b64_enc (new.1);
          priv_keys = some (old.0, new.0);
        };
        enc_priv_x25519 = k.enc_priv_x25519;
        enc_priv_mlkem768 = lib.b64_enc enc_new;
      },
      record { old_keys = old; pub_x25519 = pub_x; new_pub_mlkem = new.1 },
    )

  -- UpgradeToHybrid behind the update of the keys on the server.
  unfoldable pub rewrap_listed :
      Requests → Rewrap → Keyring → Option (List EntryRow) → Db → (Db × Keyring) × Upgraded
  rewrap_listed rs r k none db = ((db, k), unlisted)
  rewrap_listed rs r k (some es) db =
      let (db', res) = rewrap_entries rs r k.account es db in ((db', k), upgraded res)

  -- The vault behind a refusal: the private keys are loaded where the master key opens them.
  unfoldable pub behind_load : Option Bytes → Keyring → Keyring
  behind_load none k = k
  behind_load (some key) k = elim (load_keys k key) [
    | none ↦ k
    | some keys ↦ record k { account = record k.account { priv_keys = some keys } }
  ]

  -- UpgradeToHybrid: the database and the vault afterwards, and what it returns.
  unfoldable pub upgrade_to_hybrid :
      (String → String → Bool)
      → Requests
      → Option Bytes
      → Option (Bytes × Bytes)
      → Fresh
      → Keyring
      → Db
      → (Db × Keyring) × Upgraded
  upgrade_to_hybrid collation rs master_key generated drawn k db =
      elim (prepare master_key generated drawn k) [
        | none ↦ ((db, behind_load master_key k), refused)
        | some (req, k', r) ↦
            let (db', answer) = update_keys rs.at_keys (claims_of k.account) (some req) db in
            if came_through answer
            then rewrap_listed rs r k'
                (answered (list_entries collation rs.at_list (claims_of k.account) db')) db'
            else ((db', behind_load master_key k), refused)
      ]
