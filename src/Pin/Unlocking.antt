-- ===== src/Pin/Unlocking.antt =====
-- Setting and using a PIN of cli/internal/vault/pin.go.
use passbubble.Prelude.{
  ◌≢◌, ℤ, pos, negsuc, ℕ, ◌+◌, ◌*◌, ◌/◌, ◌≤◌, String, true, false, none, some, ◌≡◌, refl, arith,
  if◌then◌else◌, ◌==◌, Option-cases, inl, inr,
}
use passbubble.Store.{Bytes, ◌>>=◌}
use passbubble.Pin.Lockout.{restart}
use passbubble.Pin.{
  Client, Config, Vault, unlocked, save, count_failure, unwrap_master_key, wrap_master_key,
  derive_master_key, pin_pw_expired, pin_deadline, pin_interval_days, after_right_pin, attempt_pin,
  unlock_with_pin, configured, priv_keys_of, enable_pin, nanoseconds, pin_kdf_time, pin_kdf_memory,
  clamp_pin_interval_days, default_pin_interval_days,
}

-- What AES-GCM and base64 promise of the later process's library: it opens what the earlier sealed.
pub record Agrees (early late : Client) : Type 0 where
  pub same_key :
      (s : String) (salt : Bytes) (t m : ℕ)
      → late.derive_key s salt t m ≡ early.derive_key s salt t m
  pub decode-encode : (b : Bytes) → late.b64_dec (early.b64_enc b) ≡ some b
  pub decrypt-encrypt : (k m c : Bytes) → early.encrypt k m ≡ some c → late.decrypt k c ≡ some m

-- A PIN that fits and has not expired, where the master key opens the private keys, unlocks, whatever
-- the count of failures, loads these keys and sets the count back.
pub right_pin-unlocks :
    (world : Client) (pin : String) (v : Vault) (key : Bytes) (keys : Bytes × Bytes)
    → v.cfg.pin_enabled ≡ true
    → pin_pw_expired world.clock v.cfg ≡ false
    → unwrap_master_key world v.cfg pin ≡ some (some key)
    → priv_keys_of world v.cfg key ≡ some keys
    → (unlock_with_pin world pin v).1 ≡ unlocked
      × ((unlock_with_pin world pin v).0.priv_keys ≡ some keys)
      × ((unlock_with_pin world pin v).0.cfg ≡ record v.cfg { pin_fail_count = 0 })
unfolding unlock_with_pin attempt_pin after_right_pin save count_failure priv_keys_of ◌>>=◌
right_pin-unlocks world pin v key keys on in_time fits opens = ground (arith, fits, opens)

-- The wrapped key is the master key under the PIN.
wrap_master_key_lem :
    (world : Client) (c : Config) (password pin : String) (key salt wrapped : Bytes)
    → derive_master_key world c password ≡ some key
    → wrap_master_key world c password pin ≡ some (salt, wrapped)
    → world.encrypt (world.derive_key pin salt pin_kdf_time pin_kdf_memory) key ≡ some wrapped
unfolding wrap_master_key ◌>>=◌
wrap_master_key_lem world c password pin key salt wrapped d h = ground (arith, d, h)

-- The days that a stored limit stands for.
abbrev pin_interval_days_of : ℕ → ℕ
pin_interval_days_of n =
    if n == 0 then default_pin_interval_days else clamp_pin_interval_days (pos n)

-- What was clamped stands for itself.
clamp-idempotent :
    (days : ℤ) → pin_interval_days_of (clamp_pin_interval_days days) ≡ clamp_pin_interval_days days
unfolding clamp_pin_interval_days
clamp-idempotent (pos n) = ground arith
clamp-idempotent (negsuc n) = ground arith

enable_pin-fails :
    (world : Client) (password pin : String) (days tries : ℤ) (v : Vault)
    → wrap_master_key world v.cfg password pin ≡ none
    → (enable_pin world password pin days tries v).1 ≢ unlocked
unfolding enable_pin
enable_pin-fails world password pin days tries v e done = ground (arith, e, done)

enable_pin_lem :
    (world : Client) (password pin : String) (days tries : ℤ) (v : Vault) (salt wrapped : Bytes)
    → wrap_master_key world v.cfg password pin ≡ some (salt, wrapped)
    → (enable_pin world password pin days tries v).1 ≡ unlocked
    → (enable_pin world password pin days tries v).0.file
      ≡ configured world days tries salt wrapped v.cfg
unfolding enable_pin save
enable_pin_lem world password pin days tries v salt wrapped e done = ground (arith, e, done)

configured-in_time :
    (world : Client) (late : ℕ) (days tries : ℤ) (c : Config) (salt wrapped : Bytes)
    → nanoseconds ≤ world.clock
    → late ≤ (world.clock / nanoseconds + clamp_pin_interval_days days * 24 * 60 * 60) * nanoseconds
    → pin_pw_expired late (configured world days tries salt wrapped c) ≡ false
unfolding pin_pw_expired configured pin_deadline pin_interval_days
configured-in_time world late days tries c salt wrapped clock in_time =
    ground (arith, clamp-idempotent days)

configured-fits :
    (early late : Client) (pin : String) (days tries : ℤ) (c : Config) (key salt wrapped : Bytes)
    → Agrees early late
    → early.encrypt (early.derive_key pin salt pin_kdf_time pin_kdf_memory) key ≡ some wrapped
    → unwrap_master_key late (configured early days tries salt wrapped c) pin ≡ some (some key)
unfolding unwrap_master_key configured ◌>>=◌
configured-fits early late pin days tries c key salt wrapped agrees h = ground (
  arith,
  agrees.decode-encode salt,
  agrees.decode-encode wrapped,
  agrees.same_key pin salt pin_kdf_time pin_kdf_memory,
  agrees.decrypt-encrypt (early.derive_key pin salt pin_kdf_time pin_kdf_memory) key wrapped h,
)

-- If EnablePIN succeeds with a master password whose key opens the private keys, and a later process,
-- whose base64, Argon2id and AES-GCM undo what the earlier one did, starts from the file within the
-- clamped interval of days, then the same PIN unlocks it with these private keys.
pub enable_pin-unlocks :
    (early late : Client) (password pin : String) (days tries : ℤ) (v : Vault) (key : Bytes)
    (keys : Bytes × Bytes)
    → Agrees early late
    → derive_master_key early v.cfg password ≡ some key
    → priv_keys_of late v.cfg key ≡ some keys
    → (enable_pin early password pin days tries v).1 ≡ unlocked
    → nanoseconds ≤ early.clock
    → late.clock
      ≤ (early.clock / nanoseconds + clamp_pin_interval_days days * 24 * 60 * 60) * nanoseconds
    → (unlock_with_pin late pin (restart (enable_pin early password pin days tries v).0.file)).1
        ≡ unlocked
      × ((unlock_with_pin late pin
            (restart (enable_pin early password pin days tries v).0.file)).0.priv_keys
          ≡ some keys)
unfolding restart configured priv_keys_of
enable_pin-unlocks early late password pin days tries v key keys agrees d opens done clock in_time =
    elim (Option-cases (wrap_master_key early v.cfg password pin)) [
      | inl e ↦ absurd (enable_pin-fails early password pin days tries v e done)
      | inr ((salt, wrapped), e) ↦
          rw (enable_pin_lem early password pin days tries v salt wrapped e done) (
            let r =
              right_pin-unlocks late pin (restart (configured early days tries salt wrapped v.cfg))
                key keys refl
                (configured-in_time early late.clock days tries v.cfg salt wrapped clock in_time)
                (configured-fits early late pin days tries v.cfg key salt wrapped agrees
                  (wrap_master_key_lem early v.cfg password pin key salt wrapped d e))
                opens in
            (r.0, r.1))
    ]
