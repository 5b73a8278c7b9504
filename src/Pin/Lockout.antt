-- ===== src/Pin/Lockout.antt =====
-- Guessing a PIN of cli/internal/vault/pin.go: attempts by processes that start from the file.
use passbubble.Prelude.{
  ℕ, suc, ◌≤◌, String, Bool, true, false, none, some, List, [], ◌∷◌, leb, length, All, All-imp,
  Bool-cases, inl, inr, ◌≡◌, refl, ◌∙◌, ap, arith, if◌then◌else◌,
}
use passbubble.Store.{◌>>=◌}
use passbubble.Pin.{
  Client, Config, Vault, save, clear_pin, count_failure, unwrap_master_key, pin_pw_expired,
  pin_deadline, pin_interval_days, pin_max_tries, pin_tries_remaining, disable_pin, after_wrong_pin,
  attempt_pin, unlock_with_pin,
}

-- A process that starts from the file, locked.
unfoldable pub restart : Config → Vault
restart file = record { cfg = file; file = file; priv_keys = none }

-- What the file holds after attempts, each in a process of its own.
unfoldable pub attempts : List (Client × String) → Config → Config
attempts [] file = file
attempts ((world, pin) ∷ rest) file =
    attempts rest (unlock_with_pin world pin (restart file)).0.file

-- The PIN does not fit, the interval has not elapsed and the file can be written.
pub record IsWrong (file : Config) (try : Client × String) : Type 0 where
  pub misfits : unwrap_master_key try.0 file try.1 ≡ some none
  pub in_time : pin_pw_expired try.0.clock file ≡ false
  pub writable : (n : ℕ) → try.0.save_fails n ≡ false

abbrev pub is_last : Config → Bool
is_last file = leb (pin_max_tries file) (suc file.pin_fail_count)

-- A wrong PIN counts in the file, or wipes the PIN from it at the last try.
pub wrong_step :
    (file : Config) (try : Client × String)
    → file.pin_enabled ≡ true
    → IsWrong file try
    → (unlock_with_pin try.0 try.1 (restart file)).0.file
      ≡ (if is_last file then clear_pin file else count_failure file)
unfolding unlock_with_pin restart attempt_pin after_wrong_pin save count_failure disable_pin
    pin_max_tries clear_pin
wrong_step file try on h = ground (arith, h.misfits, h.in_time, h.writable 0, h.writable 1)

-- Counting a failure leaves a wrong PIN wrong.
IsWrong-count_failure :
    (file : Config) (try : Client × String) → IsWrong file try → IsWrong (count_failure file) try
unfolding count_failure unwrap_master_key ◌>>=◌ pin_pw_expired pin_deadline pin_interval_days
IsWrong-count_failure file try h = record {
  misfits = h.misfits;
  in_time = h.in_time;
  writable = h.writable;
}

-- Without a PIN nothing is attempted.
attempts-disabled :
    (tries : List (Client × String)) (file : Config)
    → file.pin_enabled ≡ false
    → attempts tries file ≡ file
unfolding attempts unlock_with_pin restart
attempts-disabled [] file off = refl
attempts-disabled ((world, pin) ∷ rest) file off = ground (arith, attempts-disabled rest file off)

-- If the file has a PIN, no PIN that is tried fits it, every attempt falls into the interval and can
-- write the file, and there are as many attempts as tries remain, and at least one, then the file
-- ends up as it was with its PIN wiped, though every attempt starts from the file anew.
pub attempts-lock_out :
    (tries : List (Client × String)) (file : Config)
    → file.pin_enabled ≡ true
    → All (IsWrong file) tries
    → pin_tries_remaining file ≤ length tries
    → 1 ≤ length tries
    → attempts tries file ≡ clear_pin file
unfolding attempts pin_tries_remaining clear_pin count_failure pin_max_tries
attempts-lock_out [] file on wrong enough some_try = ground arith
attempts-lock_out (try ∷ rest) file on wrong enough some_try = elim (Bool-cases (is_last file)) [
  | inl e ↦
      ap (attempts rest) (wrong_step file try on wrong.0 ∙ ground arith)
      ∙ attempts-disabled rest (clear_pin file) refl
  | inr e ↦
      ap (attempts rest) (wrong_step file try on wrong.0 ∙ ground arith)
      ∙ attempts-lock_out rest (count_failure file) on
          (All-imp rest (IsWrong-count_failure file) wrong.1) (ground arith) (ground arith)
]
