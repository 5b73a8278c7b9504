-- ===== src/Tests/Sealed.antt =====
-- Witnesses for the encryption of data keys and of entries, with primitives that keep nothing secret.
use passbubble.Prelude.{
  ℕ, zero, suc, String, Bool, true, false, ◌&&◌, none, some, List, [], ◌∷◌, ◌++◌, str_eq, eq_iff,
  find_where, exists_where, if◌then◌else◌, length, drop, ◌≡◌, refl, arith, ap,
}
use passbubble.Store.{
  folder_ref, user_ref, has_user, has_entry, has_folder, contains, put_key, Bytes, World, Returns,
  ◌>>=◌,
}
use passbubble.HybridKeys.{
  encrypt, hybrid_kdf, Primitives, Fresh, encrypt_data_key, encrypt_data_key_x25519_only,
  decrypt_data_key,
}
use passbubble.HybridKeys.Opening.{AreSound, IsKemPair, HasNonce, decrypt_data_key-opens}
use passbubble.Entries.{create_entry, insert_entry, grant_owner, insert_keys, upsert_key, stamp}
use passbubble.Entries.Access.{valid_entry_type}
use passbubble.Sealing.{
  seal_entry, request_of, opt_time, Library, Account, NewEntry, EntryData, vault_create_entry,
  vault_get_entry, drop_stray_totp_secret,
}
use passbubble.Sealing.Reopening.{Fits, HasKeys, vault_get_entry-create}
use passbubble.Tests.Unary.{encode, decode, decode-encode}
use passbubble.Tests.Data.{shared_db, world_at}

abbrev zeros : ℕ → Bytes
zeros zero = []
zeros (suc n) = 0 ∷ zeros n

length-zeros : (n : ℕ) → length (zeros n) ≡ n
length-zeros zero = refl
length-zeros (suc n) = ap suc (length-zeros n)

-- Every key exchange agrees on the same secret, and a seal is sixteen bytes in front.
abbrev plain : Primitives
plain = record {
  x25519 = λ a q. some (zeros 32);
  basepoint = [];
  encapsulate = λ public seed. some (zeros 1088, 7 ∷ []);
  decapsulate = λ priv ct. some (7 ∷ []);
  hkdf = λ secrets. secrets;
  seal = λ k n m. some (zeros 16 ++ m);
  unseal = λ k n c. some (drop 16 c);
}

plain-AreSound : AreSound plain
plain-AreSound = record {
  agree = λ a b pub_a pub_b ha hb. refl;
  pub_size = λ a pub_a h. ground arith;
  unseal-seal = λ k n m c h. ground arith;
  seal_size = λ k n m c h. ground arith;
}

plain-IsKemPair : IsKemPair plain [] []
plain-IsKemPair = record {
  opens = λ seed ct secret h. (ground arith, ground (arith, length-zeros 1088));
}

abbrev draws : Fresh
draws = record { private_key = some (1 ∷ []); seed = []; nonce = some (zeros 12) }

draws-HasNonce : HasNonce draws
draws-HasNonce n h = ground arith

decrypt_data_key-opens_example :
    Returns
      (λ enc. decrypt_data_key plain enc [] [] ≡ some (zeros 32))
      (encrypt_data_key plain draws (zeros 32) (zeros 32) [])
    × Returns
        (λ enc. decrypt_data_key plain enc [] [] ≡ some (zeros 32))
        (encrypt_data_key_x25519_only plain draws (zeros 32) (zeros 32))
decrypt_data_key-opens_example =
    decrypt_data_key-opens plain plain-AreSound draws (zeros 32) [] (zeros 32) draws-HasNonce refl
      [] [] plain-IsKemPair refl

-- The data of one entry, whose TOTP secret is a copy of its password.
abbrev pub anns : EntryData
anns = record { username = "ann"; password = "pw"; totp_secret = "pw"; others = [] }

abbrev is_nil : List (String × String) → Bool
is_nil [] = true
is_nil (o ∷ os) = false

abbrev pub is_anns : EntryData → Bool
is_anns d =
    str_eq d.username "ann"
    && str_eq d.password "pw"
    && str_eq d.totp_secret "pw"
    && is_nil d.others

is_nil_only : (os : List (String × String)) → is_nil os ≡ true → os ≡ []
is_nil_only [] h = refl
is_nil_only (o ∷ os) h = cc

-- JSON for this entry alone.
abbrev pub library : Library
library = record {
  primitives = plain;
  marshal = λ d. if is_anns d then some (1 ∷ []) else none;
  unmarshal = λ b. some anns;
  b64_enc = encode;
  b64_dec = decode;
  rand_key = some (zeros 32);
  for_content = draws;
  for_key = draws;
  read_time = λ s. none;
}

abbrev server_at : ℕ → World
server_at time = record (world_at time 900) { decode64 = decode; encode64 = encode }

pub anns_only :
    (d : EntryData) (t : Bytes) → library.marshal d ≡ some t → library.unmarshal t ≡ some d
anns_only d b h =
    let u : d.username ≡ "ann" = ground (arith, eq_iff d.username "ann") in
    let p : d.password ≡ "pw" = ground (arith, eq_iff d.password "pw") in
    let s : d.totp_secret ≡ "pw" = ground (arith, eq_iff d.totp_secret "pw") in
    let o : d.others ≡ [] = is_nil_only d.others (ground arith) in ground (arith, u, p, s, o)

library-Fits : Fits library (server_at 1) (server_at 2)
library-Fits = record {
  sent = decode-encode;
  received = decode-encode;
  unmarshal-marshal = anns_only;
  sound = plain-AreSound;
  key_size = λ k h. ground arith;
  content_nonce = draws-HasNonce;
  key_nonce = draws-HasNonce;
}

abbrev account : Account
account = record {
  user_id = 1;
  pub_x25519 = encode (zeros 32);
  pub_mlkem768 = encode [];
  priv_keys = some ([], []);
}

account-HasKeys : HasKeys library account
account-HasKeys = record {
  priv_x25519 = [];
  pub_x25519 = zeros 32;
  priv_mlkem = [];
  pub_mlkem = [];
  loaded = refl;
  read_x25519 = decode-encode (zeros 32);
  read_mlkem = refl;
  pair = refl;
  kem_pair = plain-IsKemPair;
}

abbrev mailbox : NewEntry
mailbox = record {
  name = "mail";
  entry_type = "password";
  url = "";
  content = anns;
  folder_id = none;
  created_at = "";
  updated_at = "";
  match_patterns = [];
}

created_lem : (vault_create_entry library (server_at 1) account mailbox shared_db).1 ≡ some 900
unfolding vault_create_entry seal_entry request_of opt_time ◌>>=◌ encrypt encrypt_data_key
    hybrid_kdf create_entry insert_entry grant_owner insert_keys upsert_key stamp folder_ref
    user_ref has_user has_entry has_folder valid_entry_type contains put_key find_where exists_where
created_lem = refl

vault_get_entry-create_example :
    vault_get_entry library
      (server_at 2)
      account
      900
      (vault_create_entry library (server_at 1) account mailbox shared_db).0
    ≡ some (drop_stray_totp_secret anns)
unfolding find_where
vault_get_entry-create_example =
    vault_get_entry-create library (server_at 1) (server_at 2) library-Fits account account-HasKeys
      mailbox shared_db 900 record { no_entry = refl; no_key = refl } refl refl refl created_lem
