-- ===== src/Tests/Data.antt =====
-- A small database: two users, an entry shared with the second to read, and one older version.
use Prim.Native.Char.{code}
use passbubble.Prelude.{ℕ, String, false, Option, none, some, [], ◌∷◌}
use passbubble.Store.{
  World, Db, Claims, Bytes, UserRow, EntryRow, KeyRow, PermissionRow, VersionRow,
}

-- The code points of a text stand in for base64.
abbrev pub codes : String → Bytes
codes String.[] = []
codes (String.◌∷◌ c s) = code c ∷ codes s

-- A request at a time, with UUIDs counted up from a number, in which no call fails.
abbrev pub world_at : ℕ → ℕ → World
world_at time first = record {
  now = time;
  clock = time;
  fails = λ n. false;
  breaks = λ n. none;
  uuid = λ n. Prim.Native.Nat.◌+◌ first n;
  decode64 = λ s. some (codes s);
  encode64 = λ b. "";
}

abbrev pub owner : Claims
owner = record { user_id = 1; role = "user" }

abbrev pub reader : Claims
reader = record { user_id = 2; role = "user" }

abbrev pub user_row : ℕ → String → UserRow
user_row id email = record {
  id = id;
  email = email;
  name = "name";
  role = "user";
  status = "active";
  password_hash = "hash";
  invited_by = none;
  pub_x25519 = "x";
  pub_mlkem768 = "m";
  enc_priv_x25519 = "ex";
  enc_priv_mlkem768 = "em";
  kdf_salt = "salt";
  kdf_time = 3;
  kdf_memory = 65536;
  totp_secret = none;
  totp_enabled = false;
}

abbrev pub entry_row : ℕ → Option ℕ → EntryRow
entry_row id deleted = record {
  id = id;
  folder_id = none;
  owner_id = 1;
  kind = "password";
  name = "mail";
  url = some "u";
  match_patterns = none;
  encrypted_data = 7 ∷ [];
  data_nonce = 8 ∷ [];
  favorite = false;
  created_at = 100;
  updated_at = 100;
  deleted_at = deleted;
}

abbrev pub old_version : VersionRow
old_version = record {
  id = 50;
  entry_id = 10;
  name = "old mail";
  url = some "v";
  encrypted_data = 5 ∷ [];
  data_nonce = 6 ∷ [];
  edited_by = some 1;
  created_at = 90;
}

abbrev pub permission_row : ℕ → ℕ → String → PermissionRow
permission_row resource user perm = record {
  resource = resource;
  user_id = user;
  permission = perm;
  granted_by = none;
}

abbrev pub key_row : ℕ → ℕ → ℕ → KeyRow
key_row holder user byte = record { holder = holder; user_id = user; encrypted_key = byte ∷ [] }

abbrev pub shared_db : Db
shared_db = record {
  users = user_row 1 "a@x" ∷ user_row 2 "b@x" ∷ [];
  invitations = [];
  sessions = [];
  email_tokens = [];
  recovery_tokens = [];
  folders = [];
  folder_permissions = [];
  entries = entry_row 10 none ∷ [];
  entry_keys = key_row 10 1 1 ∷ key_row 10 2 2 ∷ [];
  entry_permissions = permission_row 10 1 "owner" ∷ permission_row 10 2 "read" ∷ [];
  versions = old_version ∷ [];
  version_keys = key_row 50 1 3 ∷ [];
  share_links = [];
}
