-- ===== src/Sealing/Changing.antt =====
-- The operations of cli/internal/vault/vault.go that change what there is, as calls of the server's
-- handlers: updating and moving an entry, and the folders. Fetching the entry and updating it are
-- two requests, each with its world.
use passbubble.Sealing.{
  EntryData, Library, Account, sent_patterns, sent_folder, placeholder, claims_of, answered,
}
use passbubble.Prelude.{
  ℕ, String, Bool, true, false, Option, none, some, List, [], str_eq, if◌then◌else◌,
}
use passbubble.Store.{Bytes, World, Db, Response, error, reply, ◌>>=◌}
use passbubble.Entries.{UpdateEntryRequest, update_entry, delete_entry}
use passbubble.Reading.{EntryResponse, get_entry}
use passbubble.HybridKeys.{encrypt, decrypt_data_key}
use passbubble.Folders.{CreateFolderRequest, create_folder, update_folder, delete_folder}

-- Whether a call of the server came through.
abbrev pub came_through : {A : Type 0} → Response A → Bool
came_through (error status text) = false
came_through (reply status body) = true

-- What UpdateEntry and ReplaceEntry are given. Match patterns that are none, or an empty list, which
-- the JSON leaves out, keep the stored ones.
pub record Change : Type 0 where
  pub name : String
  pub url : Option String
  pub content : EntryData
  pub match_patterns : List String

-- MoveEntry's request: an empty text keeps what is stored.
abbrev pub move_request : Option ℕ → UpdateEntryRequest
move_request folder = record {
  folder_id = sent_folder folder;
  name = "";
  url = none;
  match_patterns = none;
  encrypted_data = "";
  data_nonce = "";
  entry_keys = [];
}

module _ (lib : Library) where
  -- updateEntry's request, with the folder that the entry is in.
  unfoldable pub change_of : Option ℕ → Change → Bytes → UpdateEntryRequest
  change_of folder c ciphertext = record {
    folder_id = sent_folder folder;
    name = c.name;
    url = c.url;
    match_patterns = sent_patterns c.match_patterns;
    encrypted_data = lib.b64_enc ciphertext;
    data_nonce = lib.b64_enc placeholder;
    entry_keys = [];
  }

  -- updateEntry up to the request: the data key of the entry stays.
  unfoldable pub seal_change : Account → Change → EntryResponse → Option UpdateEntryRequest
  seal_change v c e = do
    keys ← v.priv_keys
    key_text ← e.entry_key
    enc_key ← lib.b64_dec key_text
    data_key ← decrypt_data_key lib.primitives enc_key keys.0 keys.1
    plaintext ← lib.marshal c.content
    ciphertext ← encrypt lib.primitives lib.for_content data_key plaintext
    some (change_of e.entry.folder_id c ciphertext)

  -- updateEntry: the request that the fetched entry makes.
  unfoldable pub fetch_and_seal : World → Account → ℕ → Change → Db → Option UpdateEntryRequest
  fetch_and_seal w v id c db = do
    _ ← v.priv_keys
    e ← answered (get_entry w (claims_of v) id db)
    seal_change v c e

  -- updateEntry: the database afterwards, and whether it came through.
  unfoldable pub change_entry : World → World → Account → ℕ → Change → Db → Db × Bool
  change_entry w w' v id c db = elim (fetch_and_seal w v id c db) [
    | none ↦ (db, false)
    | some req ↦
        let (db', answer) = update_entry w' (claims_of v) id (some req) db in
        (db', came_through answer)
  ]

  -- UpdateEntry: an empty URL keeps the stored one.
  unfoldable pub vault_update_entry :
      World → World → Account → ℕ → String → String → EntryData → List String → Db → Db × Bool
  vault_update_entry w w' v id name url content patterns db =
      change_entry w w' v id
        record {
          name = name;
          url = if str_eq url "" then none else some url;
          content = content;
          match_patterns = patterns;
        }
        db

  -- ReplaceEntry: an empty URL clears the stored one.
  unfoldable pub vault_replace_entry :
      World → World → Account → ℕ → String → String → EntryData → Db → Db × Bool
  vault_replace_entry w w' v id name url content db =
      change_entry w w' v id
        record { name = name; url = some url; content = content; match_patterns = [] } db

-- MoveEntry
unfoldable pub vault_move_entry : World → Account → ℕ → Option ℕ → Db → Db × Bool
vault_move_entry w v id folder db =
    let (db', answer) = update_entry w (claims_of v) id (some (move_request folder)) db in
    (db', came_through answer)

-- DeleteEntry
unfoldable pub vault_delete_entry : World → Account → ℕ → Db → Db × Bool
vault_delete_entry w v id db =
    let (db', answer) = delete_entry w (claims_of v) id db in (db', came_through answer)

abbrev pub folder_request : String → Option ℕ → CreateFolderRequest
folder_request name parent = record { name = name; parent_id = sent_folder parent }

-- CreateFolder
unfoldable pub vault_create_folder : World → Account → String → Option ℕ → Db → Db × Option ℕ
vault_create_folder w v name parent db =
    let (db', answer) = create_folder w (claims_of v) (some (folder_request name parent)) db in
    (db', answered answer)

-- RenameFolder
unfoldable pub vault_rename_folder : World → Account → ℕ → String → Option ℕ → Db → Db × Bool
vault_rename_folder w v id name parent db =
    let (db', answer) = update_folder w (claims_of v) id (some (folder_request name parent)) db in
    (db', came_through answer)

-- DeleteFolder
unfoldable pub vault_delete_folder : World → Account → ℕ → Db → Db × Bool
vault_delete_folder w v id db =
    let (db', answer) = delete_folder w (claims_of v) id db in (db', came_through answer)
