-- ===== src/HybridKeys.antt =====
-- The encryption of data keys for a recipient: cli/internal/crypto/crypto.go. X25519, ML-KEM-768,
-- HKDF-SHA256 and the AES-256-GCM seal are the parameter `Primitives`, and what a call draws from
-- crypto/rand is `Fresh`.
pub mod Opening
use passbubble.Prelude.{
  ℕ, ◌+◌, ◌-◌, Bool, Option, none, some, List, ◌++◌, ltb, leb, if◌then◌else◌, length, take, drop,
}
use passbubble.Store.{Bytes, ◌>>=◌}

-- `encapsulate` and `decapsulate` read the marshalled keys first; `open` fails where the key does
-- not fit.
pub record Primitives : Type 0 where
  pub x25519 : Bytes → Bytes → Option Bytes
  pub basepoint : Bytes
  pub encapsulate : Bytes → Bytes → Option (Bytes × Bytes)
  pub decapsulate : Bytes → Bytes → Option Bytes
  pub hkdf : Bytes → Bytes
  pub seal : Bytes → Bytes → Bytes → Option Bytes
  pub unseal : Bytes → Bytes → Bytes → Option Bytes

-- What is drawn: an ephemeral private key, the seed of an encapsulation, and a nonce.
pub record Fresh : Type 0 where
  pub private_key : Option Bytes
  pub seed : Bytes
  pub nonce : Option Bytes

abbrev pub nonce_size : ℕ
nonce_size = 12

abbrev pub x25519_size : ℕ
x25519_size = 32

-- mlkem768.Scheme().CiphertextSize()
abbrev pub ciphertext_size : ℕ
ciphertext_size = 1088

module _ (p : Primitives) where
  -- Encrypt: nonce || ciphertext.
  unfoldable pub encrypt : Fresh → Bytes → Bytes → Option Bytes
  encrypt fresh key plaintext = do
    nonce ← fresh.nonce
    sealed ← p.seal key nonce plaintext
    some (nonce ++ sealed)

  -- Decrypt
  unfoldable pub decrypt : Bytes → Bytes → Option Bytes
  decrypt key blob =
      if ltb (length blob) nonce_size
      then none
      else p.unseal key (take nonce_size blob) (drop nonce_size blob)

  -- hybridKDF
  unfoldable pub hybrid_kdf : Bytes → Bytes → Bytes
  hybrid_kdf x25519_secret kem_secret = p.hkdf (x25519_secret ++ kem_secret)

  -- EncryptDataKey: ephemeral key || encapsulation || nonce || ciphertext.
  unfoldable pub encrypt_data_key : Fresh → Bytes → Bytes → Bytes → Option Bytes
  encrypt_data_key fresh data_key pub_x25519 pub_mlkem = do
    eph_priv ← fresh.private_key
    eph_pub ← p.x25519 eph_priv p.basepoint
    shared ← p.x25519 eph_priv pub_x25519
    kem ← p.encapsulate pub_mlkem fresh.seed
    sealed ← encrypt fresh (hybrid_kdf shared kem.1) data_key
    some (eph_pub ++ (kem.0 ++ sealed))

  -- encryptDataKeyX25519Only
  unfoldable pub encrypt_data_key_x25519_only : Fresh → Bytes → Bytes → Option Bytes
  encrypt_data_key_x25519_only fresh data_key pub_x25519 = do
    eph_priv ← fresh.private_key
    eph_pub ← p.x25519 eph_priv p.basepoint
    shared ← p.x25519 eph_priv pub_x25519
    sealed ← encrypt fresh shared data_key
    some (eph_pub ++ sealed)

  -- decryptDataKeyHybrid
  unfoldable pub decrypt_data_key_hybrid : Bytes → Bytes → Bytes → Option Bytes
  decrypt_data_key_hybrid enc_key priv_x25519 priv_mlkem = do
    shared ← p.x25519 priv_x25519 (take x25519_size enc_key)
    kem ← p.decapsulate priv_mlkem (take ciphertext_size (drop x25519_size enc_key))
    decrypt (hybrid_kdf shared kem) (drop ciphertext_size (drop x25519_size enc_key))

  -- decryptDataKeyX25519Only
  unfoldable pub decrypt_data_key_x25519_only : Bytes → Bytes → Option Bytes
  decrypt_data_key_x25519_only enc_key priv_x25519 =
      if ltb (length enc_key) (x25519_size + nonce_size) then none else do
        shared ← p.x25519 priv_x25519 (take x25519_size enc_key)
        decrypt shared (drop x25519_size enc_key)

  -- DecryptDataKey tells the formats apart by the length.
  unfoldable pub decrypt_data_key : Bytes → Bytes → Bytes → Option Bytes
  decrypt_data_key enc_key priv_x25519 priv_mlkem =
      if leb (x25519_size + ciphertext_size) (length enc_key)
      then decrypt_data_key_hybrid enc_key priv_x25519 priv_mlkem
      else decrypt_data_key_x25519_only enc_key priv_x25519
