-- ===== src/Sealing/Reopening.antt =====
-- What CreateEntry of cli/internal/vault/vault.go stores, GetEntry opens again.
use passbubble.Prelude.{
  ℕ, false, none, some, [], ◌∷◌, ◌≡◌, refl, ap, arith, ◌∙◌, Option-cases, inl, inr, length,
}
use passbubble.Store.{Bytes, World, Db, reply, uuid, ◌>>=◌, Returns, Returns-bind, Returns-some}
use passbubble.Entries.{CreateEntryRequest, create_entry, insert_entry}
use passbubble.Reading.{EntryResponse, get_entry, key_text}
use passbubble.HybridKeys.{
  encrypt, decrypt, encrypt_data_key, decrypt_data_key, decrypt_data_key_x25519_only,
}
use passbubble.HybridKeys.Opening.{
  AreSound, IsKemPair, HasNonce, encrypt-Returns, decrypt_data_key-opens,
}
use passbubble.Sealing.{
  Library, Account, NewEntry, EntryData, request_of, seal_entry, decrypt_entry,
  drop_stray_totp_secret, vault_create_entry, vault_get_entry, claims_of, answered,
}
use passbubble.Sealing.Stored.{IsNew, Shows, create_entry-Shows}

-- The libraries at both ends fit: base64 and JSON read back what they wrote, the primitives are
-- sound, and keys and nonces drawn have their sizes.
pub record Fits (lib : Library) (w later : World) : Type 0 where
  pub sent : (b : Bytes) → w.decode64 (lib.b64_enc b) ≡ some b
  pub received : (b : Bytes) → lib.b64_dec (later.encode64 b) ≡ some b
  pub unmarshal-marshal :
      (d : EntryData) (t : Bytes) → lib.marshal d ≡ some t → lib.unmarshal t ≡ some d
  pub sound : AreSound lib.primitives
  pub key_size : (k : Bytes) → lib.rand_key ≡ some k → length k ≡ 32
  pub content_nonce : HasNonce lib.for_content
  pub key_nonce : HasNonce lib.for_key

-- The private keys in memory belong to the public ones of the configuration.
pub record HasKeys (lib : Library) (v : Account) : Type 0 where
  pub priv_x25519 : Bytes
  pub pub_x25519 : Bytes
  pub priv_mlkem : Bytes
  pub pub_mlkem : Bytes
  pub loaded : v.priv_keys ≡ some (priv_x25519, priv_mlkem)
  pub read_x25519 : lib.b64_dec v.pub_x25519 ≡ some pub_x25519
  pub read_mlkem : lib.b64_dec v.pub_mlkem768 ≡ some pub_mlkem
  pub pair : lib.primitives.x25519 priv_x25519 lib.primitives.basepoint ≡ some pub_x25519
  pub kem_pair : IsKemPair lib.primitives priv_mlkem pub_mlkem

-- A request whose parts open with the keys.
record IsSealed (lib : Library) (v : Account) (keys : HasKeys lib v) (content : EntryData)
    (req : CreateEntryRequest) : Type 0 where
  data_key : Bytes
  plaintext : Bytes
  payload : Bytes
  enc_key : Bytes
  payload_text : req.encrypted_data ≡ lib.b64_enc payload
  key_text_eq :
      req.entry_keys ≡ record { user_id = uuid v.user_id; encrypted_key = lib.b64_enc enc_key } ∷ []
  marshalled : lib.marshal content ≡ some plaintext
  opens : decrypt lib.primitives data_key payload ≡ some plaintext
  key_opens :
      decrypt_data_key lib.primitives enc_key keys.priv_x25519 keys.priv_mlkem ≡ some data_key

module _ (lib : Library) (w later : World) (fits : Fits lib w later) (v : Account)
    (keys : HasKeys lib v) where
  wrapped_opens :
      (data_key px pm enc_key : Bytes)
      → lib.rand_key ≡ some data_key
      → lib.b64_dec v.pub_x25519 ≡ some px
      → lib.b64_dec v.pub_mlkem768 ≡ some pm
      → encrypt_data_key lib.primitives lib.for_key data_key px pm ≡ some enc_key
      → decrypt_data_key lib.primitives enc_key keys.priv_x25519 keys.priv_mlkem ≡ some data_key
  wrapped_opens data_key px pm enc_key drawn hx hm wrapped =
      let ex : px ≡ keys.pub_x25519 = ground (arith, keys.read_x25519) in
      let em : pm ≡ keys.pub_mlkem = ground (arith, keys.read_mlkem) in
      let opens =
        decrypt_data_key-opens lib.primitives fits.sound lib.for_key data_key keys.priv_x25519
          keys.pub_x25519 fits.key_nonce keys.pair keys.priv_mlkem keys.pub_mlkem keys.kem_pair
          (fits.key_size data_key drawn) in
      opens.0.at enc_key (rw (ex, em) at wrapped)

  wrapped-IsSealed :
      (e : NewEntry) (data_key plaintext payload px pm enc_key : Bytes)
      → lib.rand_key ≡ some data_key
      → lib.marshal e.content ≡ some plaintext
      → encrypt lib.primitives lib.for_content data_key plaintext ≡ some payload
      → lib.b64_dec v.pub_x25519 ≡ some px
      → lib.b64_dec v.pub_mlkem768 ≡ some pm
      → encrypt_data_key lib.primitives lib.for_key data_key px pm ≡ some enc_key
      → IsSealed lib v keys e.content (request_of lib v e payload enc_key)
  unfolding request_of
  wrapped-IsSealed e data_key plaintext payload px pm enc_key drawn marshalled sealed hx hm
        wrapped =
      record {
        data_key = data_key;
        plaintext = plaintext;
        payload = payload;
        enc_key = enc_key;
        payload_text = refl;
        key_text_eq = refl;
        marshalled = marshalled;
        opens =
            ((encrypt-Returns lib.primitives fits.sound lib.for_content data_key plaintext
                fits.content_nonce).at
              payload sealed).0;
        key_opens = wrapped_opens data_key px pm enc_key drawn hx hm wrapped;
      }

  seal_entry-IsSealed :
      (e : NewEntry) → Returns (IsSealed lib v keys e.content) (seal_entry lib v e)
  unfolding seal_entry
  seal_entry-IsSealed e = Returns-bind v.priv_keys _ λ _ _.
      Returns-bind lib.rand_key _ λ data_key drawn.
        Returns-bind (lib.marshal e.content) _ λ plaintext marshalled.
          Returns-bind (encrypt lib.primitives lib.for_content data_key plaintext) _
            λ payload sealed. Returns-bind (lib.b64_dec v.pub_x25519) _ λ px hx.
              Returns-bind (lib.b64_dec v.pub_mlkem768) _ λ pm hm.
                Returns-bind (encrypt_data_key lib.primitives lib.for_key data_key px pm) _
                  λ enc_key wrapped. Returns-some (
                    wrapped-IsSealed e data_key plaintext payload px pm enc_key drawn marshalled
                      sealed hx hm wrapped)

  opened_none : (px pm : Bytes) → decrypt_data_key lib.primitives [] px pm ≡ none
  unfolding decrypt_data_key decrypt_data_key_x25519_only
  opened_none px pm = refl

  key_text_filled :
      (enc_key px pm data_key : Bytes)
      → decrypt_data_key lib.primitives enc_key px pm ≡ some data_key
      → key_text later (some enc_key) ≡ some (later.encode64 enc_key)
  key_text_filled [] px pm data_key h = absurd (ground (arith, opened_none px pm))
  key_text_filled (k ∷ ks) px pm data_key h = refl

  shown_opens :
      (content : EntryData) (req : CreateEntryRequest) (sealed : IsSealed lib v keys content req)
      (shown : EntryResponse)
      → shown.encrypted_data ≡ later.encode64 sealed.payload
      → shown.entry_key ≡ key_text later (some sealed.enc_key)
      → decrypt_entry lib v shown ≡ some (drop_stray_totp_secret content)
  unfolding decrypt_entry ◌>>=◌
  shown_opens content req sealed shown data_eq key_eq =
      let filled =
        key_text_filled sealed.enc_key keys.priv_x25519 keys.priv_mlkem sealed.data_key
          sealed.key_opens in
      rw
        (
          keys.loaded,
          key_eq,
          filled,
          fits.received sealed.enc_key,
          sealed.key_opens,
          data_eq,
          fits.received sealed.payload,
          sealed.opens,
          fits.unmarshal-marshal content sealed.plaintext sealed.marshalled,
        )
        refl

  read_back :
      (content : EntryData) (req : CreateEntryRequest) (id : ℕ) (db : Db)
      (sealed : IsSealed lib v keys content req)
      → Shows later sealed.payload sealed.enc_key (get_entry later (claims_of v) id db)
      → vault_get_entry lib later v id db ≡ some (drop_stray_totp_secret content)
  unfolding vault_get_entry ◌>>=◌
  read_back content req id db sealed shows = ground (
    arith,
    keys.loaded,
    shows.answer_eq,
    shown_opens content req sealed shows.shown shows.data_eq shows.key_eq,
  )

  created_req :
      (e : NewEntry) (db : Db) (id : ℕ)
      → (vault_create_entry lib w v e db).1 ≡ some id
      → (req : CreateEntryRequest) × ((seal_entry lib v e ≡ some req)
          × ((vault_create_entry lib w v e db).0 ≡ (create_entry w (claims_of v) (some req) db).0)
          × (answered (create_entry w (claims_of v) (some req) db).1 ≡ some id))
  unfolding vault_create_entry
  created_req e db id h = elim (Option-cases (seal_entry lib v e)) [
    | inl none_made ↦ absurd (ground arith)
    | inr (req, made) ↦ (req, (made, ground arith, ground arith))
  ]

  answered_created :
      (req : CreateEntryRequest) (db : Db) (id : ℕ)
      → answered (create_entry w (claims_of v) (some req) db).1 ≡ some id
      → (create_entry w (claims_of v) (some req) db).1 ≡ reply 201 id
  unfolding create_entry
  answered_created req db id h =
      elim (Option-cases (insert_entry w 0 (claims_of v) req (w.uuid 0) db)) [
        | inl refused ↦ absurd (ground arith)
        | inr (db₁, inserted) ↦ ground arith
      ]

  -- If the libraries at both ends fit, the private keys in memory belong to the public ones, the
  -- server draws an id that is new, and its insertion of the key and the later queries come through,
  -- then an entry that CreateEntry creates, GetEntry opens to the data given, but for a TOTP secret
  -- that is really the password, which is dropped.
  pub vault_get_entry-create :
      (e : NewEntry) (db : Db) (id : ℕ)
      → IsNew (w.uuid 0) v.user_id db
      → w.fails 2 ≡ false
      → later.fails 0 ≡ false
      → later.fails 1 ≡ false
      → (vault_create_entry lib w v e db).1 ≡ some id
      → vault_get_entry lib later v id (vault_create_entry lib w v e db).0
        ≡ some (drop_stray_totp_secret e.content)
  vault_get_entry-create e db id new works ok ok₁ h =
      let (req, (made, final, answer)) = created_req e db id h in
      let sealed = (seal_entry-IsSealed e).at req made in
      rw final (
        read_back e.content req id _ sealed (
          create_entry-Shows w later (claims_of v) req (lib.b64_enc sealed.enc_key) sealed.payload
            sealed.enc_key db id new sealed.key_text_eq
            (ap w.decode64 sealed.payload_text ∙ fits.sent sealed.payload)
            (fits.sent sealed.enc_key) works ok ok₁ (answered_created req db id answer)))
