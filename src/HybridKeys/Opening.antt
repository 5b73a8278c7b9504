-- ===== src/HybridKeys/Opening.antt =====
-- DecryptDataKey of cli/internal/crypto/crypto.go opens what was encrypted for the recipient.
use passbubble.Prelude.{
  ℕ, zero, suc, ◌+◌, true, false, some, [], ◌∷◌, ◌++◌, ltb, leb, length, length-append, take, drop,
  ◌≡◌, refl, arith, ap, ◌∙◌,
}
use passbubble.Store.{Bytes, ◌>>=◌, Returns, Returns-bind, Returns-some}
use passbubble.HybridKeys.{
  Primitives, Fresh, nonce_size, x25519_size, ciphertext_size, encrypt, decrypt, hybrid_kdf,
  encrypt_data_key, encrypt_data_key_x25519_only, decrypt_data_key_hybrid,
  decrypt_data_key_x25519_only, decrypt_data_key,
}

-- What X25519, ML-KEM-768 and AES-256-GCM promise: the two sides of a key exchange agree, an
-- encapsulation opens with the private key, and a seal with the key that made it, 16 bytes longer
-- than what it holds.
pub record AreSound (p : Primitives) : Type 0 where
  pub agree :
      (a b pub_a pub_b : Bytes)
      → p.x25519 a p.basepoint ≡ some pub_a
      → p.x25519 b p.basepoint ≡ some pub_b
      → p.x25519 a pub_b ≡ p.x25519 b pub_a
  pub pub_size :
      (a pub_a : Bytes) → p.x25519 a p.basepoint ≡ some pub_a → length pub_a ≡ x25519_size
  pub unseal-seal : (k n m c : Bytes) → p.seal k n m ≡ some c → p.unseal k n c ≡ some m
  pub seal_size : (k n m c : Bytes) → p.seal k n m ≡ some c → length c ≡ length m + 16

-- The private key of ML-KEM-768 belongs to the public one.
pub record IsKemPair (p : Primitives) (priv public : Bytes) : Type 0 where
  pub opens :
      (seed ct secret : Bytes)
      → p.encapsulate public seed ≡ some (ct, secret)
      → (p.decapsulate priv ct ≡ some secret) × (length ct ≡ ciphertext_size)

take-append : (n : ℕ) (xs ys : Bytes) → length xs ≡ n → take n (xs ++ ys) ≡ xs
take-append zero [] ys h = refl
take-append (suc n) [] ys h = absurd (omega arith)
take-append zero (x ∷ xs) ys h = absurd (omega arith)
take-append (suc n) (x ∷ xs) ys h = ap (◌∷◌ x) (take-append n xs ys (omega arith))

drop-append : (n : ℕ) (xs ys : Bytes) → length xs ≡ n → drop n (xs ++ ys) ≡ ys
drop-append zero [] ys h = refl
drop-append (suc n) [] ys h = absurd (omega arith)
drop-append zero (x ∷ xs) ys h = absurd (omega arith)
drop-append (suc n) (x ∷ xs) ys h = drop-append n xs ys (omega arith)

-- Nonces have twelve bytes.
abbrev pub HasNonce : Fresh → Type 0
HasNonce fresh = (n : Bytes) → fresh.nonce ≡ some n → length n ≡ nonce_size

module _ (p : Primitives) (sound : AreSound p) where
  pub decrypt-encrypt :
      (nonce key m sealed : Bytes)
      → length nonce ≡ nonce_size
      → p.seal key nonce m ≡ some sealed
      → decrypt p key (nonce ++ sealed) ≡ some m
  unfolding decrypt
  decrypt-encrypt nonce key m sealed size h = ground (
    arith,
    length-append nonce sealed,
    take-append nonce_size nonce sealed size,
    drop-append nonce_size nonce sealed size,
    sound.unseal-seal key nonce m sealed h,
  )

  pub encrypt-Returns :
      (fresh : Fresh) (key m : Bytes)
      → HasNonce fresh
      → Returns
          (λ blob. (decrypt p key blob ≡ some m) × (length blob ≡ length m + 28))
          (encrypt p fresh key m)
  unfolding encrypt
  encrypt-Returns fresh key m nonces = Returns-bind fresh.nonce _ λ nonce drawn.
      Returns-bind (p.seal key nonce m) _ λ sealed h. Returns-some (
        decrypt-encrypt nonce key m sealed (nonces nonce drawn) h,
        omega (
          arith,
          length-append nonce sealed,
          nonces nonce drawn,
          sound.seal_size key nonce m sealed h,
        ),
      )

  module _ (fresh : Fresh) (data_key priv_x25519 pub_x25519 : Bytes) (nonces : HasNonce fresh)
      (pair : p.x25519 priv_x25519 p.basepoint ≡ some pub_x25519) where
    -- The parts that the hybrid format is cut into.
    cut_opens :
        (enc rest eph_pub shared ct secret priv_mlkem sealed : Bytes)
        → take x25519_size enc ≡ eph_pub
        → drop x25519_size enc ≡ rest
        → take ciphertext_size rest ≡ ct
        → drop ciphertext_size rest ≡ sealed
        → p.x25519 priv_x25519 eph_pub ≡ some shared
        → p.decapsulate priv_mlkem ct ≡ some secret
        → decrypt p (hybrid_kdf p shared secret) sealed ≡ some data_key
        → decrypt_data_key_hybrid p enc priv_x25519 priv_mlkem ≡ some data_key
    unfolding decrypt_data_key_hybrid ◌>>=◌
    cut_opens enc rest eph_pub shared ct secret priv_mlkem sealed e₁ e₂ e₃ e₄ hs hk hd =
        rw (e₁, e₂, hs, e₃, hk, e₄) hd

    hybrid_opens :
        (eph eph_pub shared ct secret priv_mlkem sealed : Bytes)
        → p.x25519 eph p.basepoint ≡ some eph_pub
        → p.x25519 eph pub_x25519 ≡ some shared
        → p.decapsulate priv_mlkem ct ≡ some secret
        → length ct ≡ ciphertext_size
        → decrypt p (hybrid_kdf p shared secret) sealed ≡ some data_key
        → decrypt_data_key_hybrid p (eph_pub ++ (ct ++ sealed)) priv_x25519 priv_mlkem
          ≡ some data_key
    hybrid_opens eph eph_pub shared ct secret priv_mlkem sealed he hs hk size hd =
        cut_opens (eph_pub ++ (ct ++ sealed)) (ct ++ sealed) eph_pub shared ct secret priv_mlkem
          sealed (take-append x25519_size eph_pub (ct ++ sealed) (sound.pub_size eph eph_pub he))
          (drop-append x25519_size eph_pub (ct ++ sealed) (sound.pub_size eph eph_pub he))
          (take-append ciphertext_size ct sealed size) (drop-append ciphertext_size ct sealed size)
          (sound.agree priv_x25519 eph pub_x25519 eph_pub pair he ∙ hs) hk hd

    is_hybrid :
        (eph_pub ct sealed : Bytes)
        → length eph_pub ≡ x25519_size
        → length ct ≡ ciphertext_size
        → leb (x25519_size + ciphertext_size) (length (eph_pub ++ (ct ++ sealed))) ≡ true
    is_hybrid eph_pub ct sealed he hc =
        ground (arith, length-append eph_pub (ct ++ sealed), length-append ct sealed)

    encrypt_data_key-Returns :
        (priv_mlkem pub_mlkem : Bytes)
        → IsKemPair p priv_mlkem pub_mlkem
        → Returns
            (λ enc. decrypt_data_key p enc priv_x25519 priv_mlkem ≡ some data_key)
            (encrypt_data_key p fresh data_key pub_x25519 pub_mlkem)
    unfolding encrypt_data_key decrypt_data_key
    encrypt_data_key-Returns priv_mlkem pub_mlkem kem_pair =
        Returns-bind fresh.private_key _ λ eph drawn.
          Returns-bind (p.x25519 eph p.basepoint) _ λ eph_pub he.
            Returns-bind (p.x25519 eph pub_x25519) _ λ shared hs.
              Returns-bind (p.encapsulate pub_mlkem fresh.seed) _ λ (ct, secret) hk.
                Returns-bind (encrypt p fresh (hybrid_kdf p shared secret) data_key) _ λ sealed hd.
                  let (opens, size) = kem_pair.opens fresh.seed ct secret hk in
                  let fit = encrypt-Returns fresh (hybrid_kdf p shared secret) data_key nonces in
                  Returns-some (
                    rw (is_hybrid eph_pub ct sealed (sound.pub_size eph eph_pub he) size) (
                      hybrid_opens eph eph_pub shared ct secret priv_mlkem sealed he hs opens size
                        (fit.at sealed hd).0))

    only_opens :
        (eph eph_pub shared sealed : Bytes)
        → p.x25519 eph p.basepoint ≡ some eph_pub
        → p.x25519 eph pub_x25519 ≡ some shared
        → (decrypt p shared sealed ≡ some data_key) × (length sealed ≡ length data_key + 28)
        → decrypt_data_key_x25519_only p (eph_pub ++ sealed) priv_x25519 ≡ some data_key
    unfolding decrypt_data_key_x25519_only ◌>>=◌
    only_opens eph eph_pub shared sealed he hs hd =
        let size : length eph_pub ≡ x25519_size = sound.pub_size eph eph_pub he in
        let long : ltb (length (eph_pub ++ sealed)) (x25519_size + nonce_size) ≡ false =
          ground (arith, length-append eph_pub sealed, hd.1) in
        rw
          (
            long,
            take-append x25519_size eph_pub sealed size,
            sound.agree priv_x25519 eph pub_x25519 eph_pub pair he ∙ hs,
            drop-append x25519_size eph_pub sealed size,
          )
          hd.0

    encrypt_data_key_x25519_only-Returns :
        (priv_mlkem : Bytes)
        → length data_key ≡ 32
        → Returns
            (λ enc. decrypt_data_key p enc priv_x25519 priv_mlkem ≡ some data_key)
            (encrypt_data_key_x25519_only p fresh data_key pub_x25519)
    unfolding encrypt_data_key_x25519_only decrypt_data_key
    encrypt_data_key_x25519_only-Returns priv_mlkem size =
        Returns-bind fresh.private_key _ λ eph drawn.
          Returns-bind (p.x25519 eph p.basepoint) _ λ eph_pub he.
            Returns-bind (p.x25519 eph pub_x25519) _ λ shared hs.
              Returns-bind (encrypt p fresh shared data_key) _ λ sealed hd.
                let fit = (encrypt-Returns fresh shared data_key nonces).at sealed hd in
                let short : leb (x25519_size + ciphertext_size) (length (eph_pub ++ sealed))
                    ≡ false =
                  ground
                    (arith, length-append eph_pub sealed, fit.1, sound.pub_size eph eph_pub he) in
                Returns-some (rw short (only_opens eph eph_pub shared sealed he hs fit))

    -- If the recipient's private keys belong to the public ones, the data key has 32 bytes and the
    -- nonce twelve, then DecryptDataKey, which tells the formats apart by their length, opens to the
    -- same data key both what EncryptDataKey returns and what the X25519-only format of the app
    -- holds.
    pub decrypt_data_key-opens :
        (priv_mlkem pub_mlkem : Bytes)
        → IsKemPair p priv_mlkem pub_mlkem
        → length data_key ≡ 32
        → Returns
            (λ enc. decrypt_data_key p enc priv_x25519 priv_mlkem ≡ some data_key)
            (encrypt_data_key p fresh data_key pub_x25519 pub_mlkem)
          × Returns
              (λ enc. decrypt_data_key p enc priv_x25519 priv_mlkem ≡ some data_key)
              (encrypt_data_key_x25519_only p fresh data_key pub_x25519)
    decrypt_data_key-opens priv_mlkem pub_mlkem kem_pair size = (
      encrypt_data_key-Returns priv_mlkem pub_mlkem kem_pair,
      encrypt_data_key_x25519_only-Returns priv_mlkem size,
    )
