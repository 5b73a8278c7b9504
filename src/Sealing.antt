-- ===== src/Sealing.antt =====
-- Entries between the client and the server: CreateEntry, GetEntry and updateEntry of
-- cli/internal/vault/vault.go, as calls of the server's handlers.
--
-- json.Marshal and Unmarshal of the entry's data, base64, crypto/rand and the reading of timestamps
-- are the parameter `Library`; a chain of steps that ends in an error is `none`. HTTP carries a
-- request to the handler as it is, but for fields that are left out where they are empty.
pub mod Stored
pub mod Changing
pub mod Upgrading
pub mod Reopening
use passbubble.Prelude.{
  ℕ, String, Bool, true, false, not, ◌&&◌, Option, none, some, List, [], ◌∷◌, str_eq, if◌then◌else◌,
  is_some,
}
use passbubble.Store.{Bytes, World, Claims, Db, Response, error, reply, IdText, uuid, ◌>>=◌}
use passbubble.Entries.{
  EntryKey, CreateEntryRequest, UpdateEntryRequest, create_entry, update_entry,
}
use passbubble.Reading.{EntryResponse, get_entry}
use passbubble.HybridKeys.{Primitives, Fresh, encrypt, decrypt, encrypt_data_key, decrypt_data_key}

-- EntryData: the fields that the vault itself reads, and all others by their keys.
pub record EntryData : Type 0 where
  pub username : String
  pub password : String
  pub totp_secret : String
  pub others : List (String × String)

pub record Library : Type 0 where
  pub primitives : Primitives
  pub marshal : EntryData → Option Bytes
  pub unmarshal : Bytes → Option EntryData
  pub b64_enc : Bytes → String
  pub b64_dec : String → Option Bytes
  pub rand_key : Option Bytes
  pub for_content : Fresh
  pub for_key : Fresh
  pub read_time : String → Option ℕ

-- The account's part of the configuration, and the private keys where the vault is unlocked.
pub record Account : Type 0 where
  pub user_id : ℕ
  pub pub_x25519 : String
  pub pub_mlkem768 : String
  pub priv_keys : Option (Bytes × Bytes)

-- What the caller of CreateEntry gives.
pub record NewEntry : Type 0 where
  pub name : String
  pub entry_type : String
  pub url : String
  pub content : EntryData
  pub folder_id : Option ℕ
  pub created_at : String
  pub updated_at : String
  pub match_patterns : List String

-- IsStrayTOTPSecret
unfoldable pub is_stray_totp_secret : String → String → Bool
is_stray_totp_secret secret password = not (str_eq secret "") && str_eq secret password

-- DropStrayTOTPSecret
unfoldable pub drop_stray_totp_secret : EntryData → EntryData
drop_stray_totp_secret d =
    if is_stray_totp_secret d.totp_secret d.password then record d { totp_secret = "" } else d

-- A list of patterns that is empty is left out of the request.
abbrev pub sent_patterns : List String → Option (List String)
sent_patterns [] = none
sent_patterns (p ∷ ps) = some (p ∷ ps)

abbrev pub sent_folder : Option ℕ → Option IdText
sent_folder none = none
sent_folder (some f) = some (uuid f)

abbrev pub placeholder : Bytes
placeholder = 0 ∷ 0 ∷ 0 ∷ 0 ∷ 0 ∷ 0 ∷ 0 ∷ 0 ∷ 0 ∷ 0 ∷ 0 ∷ 0 ∷ []

-- The client's token names its account.
abbrev pub claims_of : Account → Claims
claims_of v = record { user_id = v.user_id; role = "user" }

abbrev pub answered : {A : Type 0} → Response A → Option A
answered (error status text) = none
answered (reply status body) = some body

module _ (lib : Library) where
  -- optTime
  unfoldable pub opt_time : String → Option (Option ℕ)
  opt_time s = if str_eq s "" then none else some (lib.read_time s)

  -- The request, with the data and the key as they are sent.
  unfoldable pub request_of : Account → NewEntry → Bytes → Bytes → CreateEntryRequest
  request_of v e ciphertext enc_key = record {
    folder_id = sent_folder e.folder_id;
    kind = e.entry_type;
    name = e.name;
    url = e.url;
    match_patterns = sent_patterns e.match_patterns;
    encrypted_data = lib.b64_enc ciphertext;
    data_nonce = lib.b64_enc placeholder;
    entry_keys = record { user_id = uuid v.user_id; encrypted_key = lib.b64_enc enc_key } ∷ [];
    created_at = opt_time e.created_at;
    updated_at = opt_time e.updated_at;
  }

  -- CreateEntry up to the request.
  unfoldable pub seal_entry : Account → NewEntry → Option CreateEntryRequest
  seal_entry v e = do
    _ ← v.priv_keys
    data_key ← lib.rand_key
    plaintext ← lib.marshal e.content
    ciphertext ← encrypt lib.primitives lib.for_content data_key plaintext
    pub_x25519 ← lib.b64_dec v.pub_x25519
    pub_mlkem ← lib.b64_dec v.pub_mlkem768
    enc_key ← encrypt_data_key lib.primitives lib.for_key data_key pub_x25519 pub_mlkem
    some (request_of v e ciphertext enc_key)

  -- decryptEntry
  unfoldable pub decrypt_entry : Account → EntryResponse → Option EntryData
  decrypt_entry v e = do
    keys ← v.priv_keys
    key_text ← e.entry_key
    enc_key ← lib.b64_dec key_text
    data_key ← decrypt_data_key lib.primitives enc_key keys.0 keys.1
    ciphertext ← lib.b64_dec e.encrypted_data
    plaintext ← decrypt lib.primitives data_key ciphertext
    content ← lib.unmarshal plaintext
    some (drop_stray_totp_secret content)

  -- CreateEntry: the database afterwards, and the id.
  unfoldable pub vault_create_entry : World → Account → NewEntry → Db → Db × Option ℕ
  vault_create_entry w v e db = elim (seal_entry v e) [
    | none ↦ (db, none)
    | some req ↦
        let (db', answer) = create_entry w (claims_of v) (some req) db in (db', answered answer)
  ]

  -- GetEntry: the data of the entry.
  unfoldable pub vault_get_entry : World → Account → ℕ → Db → Option EntryData
  vault_get_entry w v id db = do
    _ ← v.priv_keys
    e ← answered (get_entry w (claims_of v) id db)
    decrypt_entry v e
