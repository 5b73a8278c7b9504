-- ===== src/Tests/Clients.antt =====
-- Witnesses for the PIN of the command-line client.
use passbubble.Prelude.{
  pos, ℕ, String, true, false, Option, none, some, [], ◌∷◌, ◌==◌, str_eq, if◌then◌else◌, ◌≡◌, refl,
  arith, ◌*◌,
}
use passbubble.Store.{Bytes, ◌>>=◌}
use passbubble.Tests.Unary.{encode, decode, decode-encode}
use passbubble.Pin.{
  Config, Client, unlocked, unlock_with_pin, unwrap_master_key, pin_pw_expired, pin_deadline,
  pin_interval_days, clear_pin, pin_max_tries, pin_tries_remaining, positive_or,
  clamp_pin_interval_days, priv_keys_of, derive_master_key, enable_pin, wrap_master_key,
  nanoseconds,
}
use passbubble.Pin.Lockout.{restart, attempts, IsWrong, attempts-lock_out}
use passbubble.Pin.Unlocking.{Agrees, right_pin-unlocks, enable_pin-unlocks}

-- Encryption puts the key's first byte before the message, and decryption asks for that byte.
abbrev first_byte : Bytes → ℕ
first_byte [] = 0
first_byte (b ∷ bs) = b

abbrev open_box : ℕ → Bytes → Option Bytes
open_box k [] = none
open_box k (b ∷ bs) = if b == k then some bs else none

abbrev key_from : String → Bytes
key_from s = if str_eq s "1234" then 7 ∷ [] else if str_eq s "master" then 9 ∷ [] else 1 ∷ []

abbrev client_at : ℕ → Client
client_at time = record {
  b64_dec = decode;
  b64_enc = encode;
  derive_key = λ s salt t m. key_from s;
  encrypt = λ k m. some (first_byte k ∷ m);
  decrypt = λ k c. open_box (first_byte k) c;
  random_salt = some (3 ∷ []);
  clock = time * nanoseconds;
  save_fails = λ n. false;
}

clients-Agree : (early late : ℕ) → Agrees (client_at early) (client_at late)
clients-Agree early late = record {
  same_key = λ s salt t m. refl;
  decode-encode = decode-encode;
  decrypt-encrypt = λ k m c h. ground arith;
}

-- The private keys 5 and 6 under the master key 9, and the PIN "1234" with the key 7.
abbrev config : Config
config = record {
  kdf_salt = "b";
  kdf_time = 3;
  kdf_memory = 65536;
  enc_priv_x25519 = encode (9 ∷ 5 ∷ []);
  enc_priv_mlkem768 = encode (9 ∷ 6 ∷ []);
  pin_enabled = true;
  pin_salt = encode (3 ∷ []);
  pin_wrapped_master_key = encode (7 ∷ 9 ∷ []);
  pin_kdf_time = 3;
  pin_kdf_memory = 65536;
  pin_max_tries = pos 3;
  pin_fail_count = 1;
  pin_pw_interval_days = pos 14;
  pin_last_master_unlock = 100;
}

abbrev wrong_try : Client × String
wrong_try = (client_at 200, "0000")

wrong_try-IsWrong : IsWrong config wrong_try
unfolding unwrap_master_key pin_pw_expired pin_deadline pin_interval_days clamp_pin_interval_days
    ◌>>=◌
wrong_try-IsWrong = record { misfits = refl; in_time = refl; writable = λ n. refl }

attempts-lock_out_example : attempts (wrong_try ∷ wrong_try ∷ []) config ≡ clear_pin config
unfolding pin_tries_remaining pin_max_tries positive_or
attempts-lock_out_example =
    attempts-lock_out (wrong_try ∷ wrong_try ∷ []) config refl
      (wrong_try-IsWrong, (wrong_try-IsWrong, tt)) (ground arith) (ground arith)

right_pin-unlocks_example :
    ((unlock_with_pin (client_at 200) "1234" (restart config)).1 ≡ unlocked)
    × ((unlock_with_pin (client_at 200) "1234" (restart config)).0.priv_keys
        ≡ some (5 ∷ [], 6 ∷ []))
    × ((unlock_with_pin (client_at 200) "1234" (restart config)).0.cfg
        ≡ record config { pin_fail_count = 0 })
unfolding restart unwrap_master_key pin_pw_expired pin_deadline pin_interval_days
    clamp_pin_interval_days priv_keys_of ◌>>=◌
right_pin-unlocks_example =
    right_pin-unlocks (client_at 200) "1234" (restart config) (9 ∷ []) (5 ∷ [], 6 ∷ []) refl refl
      refl refl

enable_pin-unlocks_example :
    ((unlock_with_pin (client_at 300) "1234" (
        restart
          (enable_pin (client_at 200) "master" "1234" (pos 14) (pos 5) (restart config)).0.file)).1
      ≡ unlocked)
    × ((unlock_with_pin (client_at 300) "1234" (
          restart
            (enable_pin
              (client_at 200)
              "master"
              "1234"
              (pos 14)
              (pos 5)
              (restart config)).0.file)).0.priv_keys
        ≡ some (5 ∷ [], 6 ∷ []))
unfolding restart enable_pin wrap_master_key derive_master_key priv_keys_of clamp_pin_interval_days
    ◌>>=◌
enable_pin-unlocks_example =
    enable_pin-unlocks (client_at 200) (client_at 300) "master" "1234" (pos 14) (pos 5)
      (restart config) (9 ∷ []) (5 ∷ [], 6 ∷ []) (clients-Agree 200 300) refl refl refl
      (omega arith) (omega arith)
