-- ===== src/Store/Rows.antt =====
-- The rows of the database (backend/internal/db/migrations/*.up.sql). UUIDs and times are numbers,
-- BYTEA columns are lists of bytes, and a nullable column is an `Option`. Columns that no modelled
-- statement reads (created_at of most tables, updated_at of users and folders) are left out.
use passbubble.Prelude.{ℕ, String, Bool, Option, List}

abbrev pub Bytes : Type 0
Bytes = List ℕ

pub record UserRow : Type 0 where
  pub id : ℕ
  pub email : String
  pub name : String
  pub role : String
  pub status : String
  pub password_hash : String
  pub invited_by : Option ℕ
  pub pub_x25519 : String
  pub pub_mlkem768 : String
  pub enc_priv_x25519 : String
  pub enc_priv_mlkem768 : String
  pub kdf_salt : String
  pub kdf_time : ℕ
  pub kdf_memory : ℕ
  pub totp_secret : Option String
  pub totp_enabled : Bool

pub record InvitationRow : Type 0 where
  pub id : ℕ
  pub email : String
  pub token : String
  pub invited_by : Option ℕ
  pub expires_at : ℕ
  pub accepted_at : Option ℕ

pub record SessionRow : Type 0 where
  pub id : ℕ
  pub user_id : ℕ
  pub token_hash : String
  pub expires_at : ℕ

-- Rows of email_verification_tokens and of totp_recovery_tokens.
pub record TokenRow : Type 0 where
  pub user_id : ℕ
  pub token : String
  pub expires_at : ℕ

pub record FolderRow : Type 0 where
  pub id : ℕ
  pub name : String
  pub parent_id : Option ℕ
  pub owner_id : ℕ

-- Rows of folder_permissions and of entry_permissions: `resource` is the folder or the entry.
pub record PermissionRow : Type 0 where
  pub resource : ℕ
  pub user_id : ℕ
  pub permission : String
  pub granted_by : Option ℕ

pub record EntryRow : Type 0 where
  pub id : ℕ
  pub folder_id : Option ℕ
  pub owner_id : ℕ
  pub kind : String
  pub name : String
  pub url : Option String
  pub match_patterns : Option (List String)
  pub encrypted_data : Bytes
  pub data_nonce : Bytes
  pub favorite : Bool
  pub created_at : ℕ
  pub updated_at : ℕ
  pub deleted_at : Option ℕ

-- Rows of entry_keys and of entry_version_keys: `holder` is the entry or the version.
pub record KeyRow : Type 0 where
  pub holder : ℕ
  pub user_id : ℕ
  pub encrypted_key : Bytes

pub record VersionRow : Type 0 where
  pub id : ℕ
  pub entry_id : ℕ
  pub name : String
  pub url : Option String
  pub encrypted_data : Bytes
  pub data_nonce : Bytes
  pub edited_by : Option ℕ
  pub created_at : ℕ

pub record ShareLinkRow : Type 0 where
  pub id : ℕ
  pub token : String
  pub owner_id : ℕ
  pub entry_id : Option ℕ
  pub folder_id : Option ℕ
  pub encrypted_payload : Bytes
  pub payload_nonce : Bytes
  pub password_salt : Option Bytes
  pub password_hash : Option Bytes
  pub max_views : Option ℕ
  pub view_count : ℕ
  pub expires_at : ℕ
  pub revoked_at : Option ℕ
