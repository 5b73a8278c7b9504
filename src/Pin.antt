-- ===== src/Pin.antt =====
-- PIN quick-unlock of the command-line client: cli/internal/vault/pin.go, Unlock, deriveMasterKey
-- and decryptPrivKeys of cli/internal/vault/vault.go, ClearPIN of cli/internal/config/config.go.
pub mod Lockout
pub mod Unlocking
use passbubble.Prelude.{
  ℕ, ℤ, pos, negsuc, suc, ◌+◌, ◌-◌, ◌*◌, ◌/◌, String, Bool, true, false, not, Option, none, some,
  ◌==◌, ltb, leb, if◌then◌else◌,
}
use passbubble.Store.{Bytes, ◌>>=◌}

-- The part of config.Config that an unlock reads and writes. A count of failures below 0, which
-- only a file edited by hand could hold, is left out.
pub record Config : Type 0 where
  pub kdf_salt : String
  pub kdf_time : ℕ
  pub kdf_memory : ℕ
  pub enc_priv_x25519 : String
  pub enc_priv_mlkem768 : String
  pub pin_enabled : Bool
  pub pin_salt : String
  pub pin_wrapped_master_key : String
  pub pin_kdf_time : ℕ
  pub pin_kdf_memory : ℕ
  pub pin_max_tries : ℤ
  pub pin_fail_count : ℕ
  pub pin_pw_interval_days : ℤ
  pub pin_last_master_unlock : ℕ

-- The vault in memory, with the configuration that the file holds: what a process that is killed
-- leaves behind.
pub record Vault : Type 0 where
  pub cfg : Config
  pub file : Config
  pub priv_keys : Option (Bytes × Bytes)

-- crypto.B64Dec and B64Enc, DeriveKey (Argon2id) with its salt and costs, Encrypt and Decrypt
-- (AES-GCM), the random salt, the time in nanoseconds, and which saves of the file fail.
pub record Client : Type 0 where
  pub b64_dec : String → Option Bytes
  pub b64_enc : Bytes → String
  pub derive_key : String → Bytes → ℕ → ℕ → Bytes
  pub encrypt : Bytes → Bytes → Option Bytes
  pub decrypt : Bytes → Bytes → Option Bytes
  pub random_salt : Option Bytes
  pub clock : ℕ
  pub save_fails : ℕ → Bool

pub data Outcome : Type 0 where
  unlocked : Outcome
  pin_not_enabled : Outcome
  pin_expired : Outcome
  wrong_pin : Outcome
  pin_locked_out : Outcome
  failed : Outcome

abbrev pub default_pin_max_tries : ℕ
default_pin_max_tries = 5

abbrev pub default_pin_interval_days : ℕ
default_pin_interval_days = 14

abbrev pub pin_interval_min_days : ℕ
pin_interval_min_days = 1

abbrev pub pin_interval_max_days : ℕ
pin_interval_max_days = 60

abbrev pub pin_kdf_time : ℕ
pin_kdf_time = 3

abbrev pub pin_kdf_memory : ℕ
pin_kdf_memory = 64 * 1024

-- ClampPINIntervalDays
unfoldable pub clamp_pin_interval_days : ℤ → ℕ
clamp_pin_interval_days (negsuc n) = pin_interval_min_days
clamp_pin_interval_days (pos days) =
    if ltb days pin_interval_min_days
    then pin_interval_min_days
    else if ltb pin_interval_max_days days
    then pin_interval_max_days
    else days

-- A limit above 0, or the default.
unfoldable pub positive_or : ℕ → ℤ → ℕ
positive_or default (negsuc n) = default
positive_or default (pos n) = if n == 0 then default else n

unfoldable pub pin_max_tries : Config → ℕ
pin_max_tries c = positive_or default_pin_max_tries c.pin_max_tries

unfoldable pub pin_interval_days : Config → ℕ
pin_interval_days c = elim c.pin_pw_interval_days [
  | negsuc n ↦ default_pin_interval_days
  | pos n ↦ if n == 0 then default_pin_interval_days else clamp_pin_interval_days (pos n)
]

abbrev pub nanoseconds : ℕ
nanoseconds = 1000000000

-- The last nanosecond at which a PIN still unlocks.
unfoldable pub pin_deadline : Config → ℕ
pin_deadline c = (c.pin_last_master_unlock + pin_interval_days c * 24 * 60 * 60) * nanoseconds

-- PINPwExpired
unfoldable pub pin_pw_expired : ℕ → Config → Bool
pin_pw_expired clock c = if c.pin_last_master_unlock == 0 then true else ltb (pin_deadline c) clock

-- PINTriesRemaining
unfoldable pub pin_tries_remaining : Config → ℕ
pin_tries_remaining c = pin_max_tries c - c.pin_fail_count

-- ClearPIN
unfoldable pub clear_pin : Config → Config
clear_pin c = record c {
  pin_enabled = false;
  pin_salt = "";
  pin_wrapped_master_key = "";
  pin_kdf_time = 0;
  pin_kdf_memory = 0;
  pin_max_tries = pos 0;
  pin_fail_count = 0;
  pin_pw_interval_days = pos 0;
  pin_last_master_unlock = 0;
}

-- Config.Save, number n of the operation: a save that fails leaves the file as it was.
unfoldable pub save : Client → ℕ → Vault → Vault
save world n v = if world.save_fails n then v else record v { file = v.cfg }

-- onMasterUnlock
unfoldable pub on_master_unlock : Client → Vault → Vault
on_master_unlock world v =
    if not v.cfg.pin_enabled
    then v
    else save world 0 (record v {
      cfg = record v.cfg { pin_last_master_unlock = world.clock / nanoseconds; pin_fail_count = 0 };
    })

-- deriveMasterKey
unfoldable pub derive_master_key : Client → Config → String → Option Bytes
derive_master_key world c password = do
  salt ← world.b64_dec c.kdf_salt
  some (
      world.derive_key password salt (if c.kdf_time == 0 then 3 else c.kdf_time)
        (if c.kdf_memory == 0 then 64 * 1024 else c.kdf_memory))

-- decryptPrivKeys
unfoldable pub priv_keys_of : Client → Config → Bytes → Option (Bytes × Bytes)
priv_keys_of world c master_key = do
  enc_x ← world.b64_dec c.enc_priv_x25519
  priv_x ← world.decrypt master_key enc_x
  enc_m ← world.b64_dec c.enc_priv_mlkem768
  priv_m ← world.decrypt master_key enc_m
  some (priv_x, priv_m)

-- Unlock
unfoldable pub unlock : Client → String → Vault → Vault × Outcome
unlock world password v = elim (derive_master_key world v.cfg password) [
  | none ↦ (v, failed)
  | some key ↦ elim (priv_keys_of world v.cfg key) [
    | none ↦ (v, failed)
    | some keys ↦ (on_master_unlock world (record v { priv_keys = some keys }), unlocked)
  ]
]

-- The master key wrapped under a PIN, once the password has opened a private key: the salt and the
-- wrapped key.
unfoldable pub wrap_master_key : Client → Config → String → String → Option (Bytes × Bytes)
wrap_master_key world c password pin = do
  key ← derive_master_key world c password
  enc ← world.b64_dec c.enc_priv_x25519
  priv ← world.decrypt key enc
  salt ← world.random_salt
  wrapped ← world.encrypt (world.derive_key pin salt pin_kdf_time pin_kdf_memory) key
  some (salt, wrapped)

-- The PIN's part of the configuration, as EnablePIN sets it.
unfoldable pub configured : Client → ℤ → ℤ → Bytes → Bytes → Config → Config
configured world interval_days max_tries salt wrapped c = record c {
  pin_enabled = true;
  pin_salt = world.b64_enc salt;
  pin_wrapped_master_key = world.b64_enc wrapped;
  pin_kdf_time = pin_kdf_time;
  pin_kdf_memory = pin_kdf_memory;
  pin_max_tries = pos (positive_or default_pin_max_tries max_tries);
  pin_fail_count = 0;
  pin_pw_interval_days = pos (clamp_pin_interval_days interval_days);
  pin_last_master_unlock = world.clock / nanoseconds;
}

-- EnablePIN
unfoldable pub enable_pin : Client → String → String → ℤ → ℤ → Vault → Vault × Outcome
enable_pin world password pin interval_days max_tries v =
    elim (wrap_master_key world v.cfg password pin) [
      | none ↦ (v, failed)
      | some (salt, wrapped) ↦ (
        save world 0
            (record v { cfg = configured world interval_days max_tries salt wrapped v.cfg }),
        if world.save_fails 0 then failed else unlocked,
      )
    ]

-- DisablePIN, whose save is number n.
unfoldable pub disable_pin : Client → ℕ → Vault → Vault
disable_pin world n v = save world n (record v { cfg = clear_pin v.cfg })

unfoldable pub count_failure : Config → Config
count_failure c = record c { pin_fail_count = suc c.pin_fail_count }

-- The master key that the PIN unwraps: `none` where a text is no base64, `some none` where the PIN
-- does not fit.
unfoldable pub unwrap_master_key : Client → Config → String → Option (Option Bytes)
unwrap_master_key world c pin = do
  salt ← world.b64_dec c.pin_salt
  wrapped ← world.b64_dec c.pin_wrapped_master_key
  some (world.decrypt (world.derive_key pin salt c.pin_kdf_time c.pin_kdf_memory) wrapped)

-- UnlockWithPIN after a PIN that does not fit.
unfoldable pub after_wrong_pin : Client → Vault → Vault × Outcome
after_wrong_pin world v =
    if leb (pin_max_tries v.cfg) v.cfg.pin_fail_count
    then (disable_pin world 1 v, pin_locked_out)
    else (save world 1 v, wrong_pin)

-- UnlockWithPIN after a PIN that fits.
unfoldable pub after_right_pin : Client → Bytes → Vault → Vault × Outcome
after_right_pin world key v = elim (priv_keys_of world v.cfg key) [
  | none ↦ (v, failed)
  | some keys ↦ (
    save world 1 (record v { cfg = record v.cfg { pin_fail_count = 0 }; priv_keys = some keys }),
    unlocked,
  )
]

-- UnlockWithPIN behind its guards: the failure is counted and saved first.
unfoldable pub attempt_pin : Client → String → Vault → Vault × Outcome
attempt_pin world pin v =
    let counted = save world 0 (record v { cfg = count_failure v.cfg }) in
    elim (unwrap_master_key world v.cfg pin) [
      | none ↦ (counted, failed)
      | some none ↦ after_wrong_pin world counted
      | some (some key) ↦ after_right_pin world key counted
    ]

-- UnlockWithPIN
unfoldable pub unlock_with_pin : Client → String → Vault → Vault × Outcome
unlock_with_pin world pin v =
    if not v.cfg.pin_enabled
    then (v, pin_not_enabled)
    else if pin_pw_expired world.clock v.cfg
    then (v, pin_expired)
    else attempt_pin world pin v
