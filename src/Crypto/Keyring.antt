-- ===== src/Crypto/Keyring.antt =====
-- What the keyring seals it opens again, also after the active key has changed.
use tok_hub.Prelude.{
  String, ◌≡◌, refl, sym, ◌∙◌, ap, subst, inl, inr, false, some, List, [], ◌∷◌, All, ◌==◌, arith,
  Bool-cases, Option-cases,
}
use Prim.Native.String.{◌++◌}
use tok_hub.Prelude.Text.{trim_space, truncate_runes}
use tok_hub.Prelude.Text.Trim.{trim_space_again}
use tok_hub.Crypto.{
  Cipher, CipherLaws, Keys, find_key, is_digest_of, KeyringConfig, CredentialEnvelope,
  CredentialKeyring, put_encryption_keys, put_fingerprint_keys, keyring_with,
  new_credential_keyring, credential_context, encrypt_with_fingerprint, decrypt,
}

module _ {B : Type 0} (c : Cipher B) where
  -- A keyring has its active keys, under ids without blanks around them.
  record HasActive (ring : CredentialKeyring) : Type 0 where
    is_trimmed : trim_space ring.active_encryption_key_id ≡ ring.active_encryption_key_id
    key : String
    has_key : find_key ring.active_encryption_key_id ring.encryption_keys ≡ some key
    fingerprint_key : String
    has_fingerprint_key :
        find_key ring.active_fingerprint_key_id ring.fingerprint_keys ≡ some fingerprint_key

  with-HasActive :
      (cfg : KeyringConfig) (encryption : Keys) (key : String) (ring : CredentialKeyring)
      → find_key (trim_space cfg.active_encryption_key_id) encryption ≡ some key
      → keyring_with c cfg encryption ≡ some ring
      → HasActive ring
  unfolding keyring_with
  with-HasActive cfg encryption key ring k e =
      elim (Option-cases (put_fingerprint_keys c encryption cfg.fingerprint_keys [])) [
        | inl bad ↦ absurd (ground arith)
        | inr (fingerprints, good) ↦
            elim (Option-cases (find_key (trim_space cfg.active_fingerprint_key_id) fingerprints)) [
              | inl missing ↦ absurd (ground arith)
              | inr (f, found) ↦
                  (let made : CredentialKeyring = record {
                    active_encryption_key_id = trim_space cfg.active_encryption_key_id;
                    encryption_keys = encryption;
                    active_fingerprint_key_id = trim_space cfg.active_fingerprint_key_id;
                    fingerprint_keys = fingerprints;
                  } in
                    let same : made ≡ ring = ground arith in
                    subst HasActive same (record {
                      is_trimmed = trim_space_again cfg.active_encryption_key_id;
                      key = key;
                      has_key = k;
                      fingerprint_key = f;
                      has_fingerprint_key = found;
                    }))
            ]
      ]

  new-HasActive :
      (cfg : KeyringConfig) (ring : CredentialKeyring)
      → new_credential_keyring c cfg ≡ some ring
      → HasActive ring
  unfolding new_credential_keyring
  new-HasActive cfg ring e = elim (Option-cases (put_encryption_keys c cfg.encryption_keys [])) [
    | inl bad ↦ absurd (ground arith)
    | inr (encryption, good) ↦
        elim (Option-cases (find_key (trim_space cfg.active_encryption_key_id) encryption)) [
          | inl missing ↦ absurd (ground arith)
          | inr (key, found) ↦ with-HasActive cfg encryption key ring found (ground arith)
        ]
  ]

  -- The envelope of a credential that is not blank.
  record Sealed (ring : CredentialKeyring) (owner provider plain source : String) (nonce : B)
      : Type 0 where
    envelope : CredentialEnvelope
    key : String
    made : encrypt_with_fingerprint c ring owner provider plain source nonce ≡ some envelope
    key_id : envelope.encryption_key_id ≡ ring.active_encryption_key_id
    found : find_key ring.active_encryption_key_id ring.encryption_keys ≡ some key
    text :
        envelope.ciphertext
        ≡ c.encode (c.seal key nonce (trim_space plain) (credential_context owner provider))
    nonce_text : envelope.nonce ≡ c.encode nonce

  encrypt-Sealed :
      (ring : CredentialKeyring) (owner provider plain source : String) (nonce : B)
      → HasActive ring
      → (trim_space plain == "") ≡ false
      → (trim_space source == "") ≡ false
      → Sealed ring owner provider plain source nonce
  unfolding encrypt_with_fingerprint
  encrypt-Sealed ring owner provider plain source nonce a p s =
      let k = a.has_key in
      let f = a.has_fingerprint_key in
      record {
        envelope = record {
          ciphertext =
              c.encode (c.seal a.key nonce (trim_space plain) (credential_context owner provider));
          nonce = c.encode nonce;
          encryption_key_id = ring.active_encryption_key_id;
          fingerprint =
              truncate_runes
                (c.mac a.fingerprint_key
                  (credential_context owner provider ++ "\0" ++ trim_space source))
                24;
          fingerprint_key_id = ring.active_fingerprint_key_id;
          algorithm = "aes-256-gcm";
        };
        key = a.key;
        made = rw (encrypt_with_fingerprint, p, s, k, f) refl;
        key_id = refl;
        found = k;
        text = refl;
        nonce_text = refl;
      }

  -- A keyring that has the key of an envelope opens it where the cipher does.
  opens :
      CipherLaws c
      → (ring : CredentialKeyring) (e : CredentialEnvelope)
        (owner provider key plain context : String) (nonce : B)
      → trim_space e.encryption_key_id ≡ e.encryption_key_id
      → find_key e.encryption_key_id ring.encryption_keys ≡ some key
      → e.ciphertext ≡ c.encode (c.seal key nonce plain context)
      → e.nonce ≡ c.encode nonce
      → decrypt c ring owner provider e
        ≡ c.open_sealed key nonce
            (c.seal key nonce plain context)
            (credential_context owner provider)
  unfolding decrypt
  opens laws ring e owner provider key plain context nonce t k text n =
      let k' = ap (λ id. find_key id ring.encryption_keys) t ∙ k in
      let d = ap c.decode text ∙ laws.decode-encode (c.seal key nonce plain context) in
      let m = ap c.decode n ∙ laws.decode-encode nonce in rw (decrypt, k', d, m) refl

  opened :
      CipherLaws c
      → (ring later : CredentialKeyring) {owner provider plain source : String} {nonce : B}
      → (x : Sealed ring owner provider plain source nonce)
      → find_key ring.active_encryption_key_id later.encryption_keys
        ≡ find_key ring.active_encryption_key_id ring.encryption_keys
      → (owner' provider' : String) → HasActive ring
      → decrypt c later owner' provider' x.envelope
        ≡ c.open_sealed x.key nonce
            (c.seal x.key nonce (trim_space plain) (credential_context owner provider))
            (credential_context owner' provider')
  opened laws ring later {owner} {provider} {plain} {source} {nonce} x same owner' provider' a =
      opens laws later x.envelope owner' provider' x.key (trim_space plain)
        (credential_context owner provider) nonce
        (ap trim_space x.key_id ∙ a.is_trimmed ∙ sym x.key_id)
        (ap (λ id. find_key id later.encryption_keys) x.key_id ∙ same ∙ x.found) x.text x.nonce_text

  -- A keyring that was made seals any credential that is not blank, with a source of its fingerprint that
  -- is not blank either, and every keyring that has the same key under the id of the key that was active
  -- then opens it, whichever key is active now, for the same owner and provider: it reads the credential
  -- without the blanks around it.
  pub sealed_is_opened :
      CipherLaws c
      → (cfg : KeyringConfig) (ring later : CredentialKeyring)
      → new_credential_keyring c cfg ≡ some ring
      → find_key ring.active_encryption_key_id later.encryption_keys
        ≡ find_key ring.active_encryption_key_id ring.encryption_keys
      → (owner provider plain source : String) (nonce : B) → (trim_space plain == "") ≡ false
      → (trim_space source == "") ≡ false
      → (e : CredentialEnvelope) × (encrypt_with_fingerprint c ring owner provider plain source
            nonce
          ≡ some e)
        × (decrypt c later owner provider e ≡ some (trim_space plain))
  sealed_is_opened laws cfg ring later new same owner provider plain source nonce p s =
      let a = new-HasActive cfg ring new in
      let x = encrypt-Sealed ring owner provider plain source nonce a p s in
      (
        x.envelope,
        x.made,
        opened laws ring later x same owner provider a
            ∙ laws.open-seal x.key nonce (trim_space plain) (credential_context owner provider),
      )

  -- A credential that is not blank, sealed by a keyring that was made, is read under no other context:
  -- where a keyring that has the same key under the id of the key that was active reads the envelope for
  -- an owner and a provider, their context is the one that it was sealed under.
  pub sealed_is_bound :
      CipherLaws c
      → (cfg : KeyringConfig) (ring later : CredentialKeyring)
      → new_credential_keyring c cfg ≡ some ring
      → find_key ring.active_encryption_key_id later.encryption_keys
        ≡ find_key ring.active_encryption_key_id ring.encryption_keys
      → (owner provider plain source : String) (nonce : B) (e : CredentialEnvelope)
      → encrypt_with_fingerprint c ring owner provider plain source nonce ≡ some e
      → (trim_space plain == "") ≡ false
      → (trim_space source == "") ≡ false
      → (owner' provider' read : String) → decrypt c later owner' provider' e ≡ some read
      → credential_context owner' provider' ≡ credential_context owner provider
  sealed_is_bound laws cfg ring later new same owner provider plain source nonce e made p s owner'
        provider' read r =
      let a = new-HasActive cfg ring new in
      let x = encrypt-Sealed ring owner provider plain source nonce a p s in
      let envelopes : x.envelope ≡ e = (let m = x.made in cc) in
      let r' = subst (λ y. decrypt c later owner' provider' y ≡ some read) (sym envelopes) r in
      laws.open-context x.key nonce (trim_space plain) (credential_context owner provider)
        (credential_context owner' provider') read
        (sym (opened laws ring later x same owner' provider' a) ∙ r')

  apart_from :
      (used : Keys) (more : List (String × String)) (keys out : Keys)
      → All (λ k. is_digest_of k.1 used ≡ false) keys
      → put_fingerprint_keys c used more keys ≡ some out
      → All (λ k. is_digest_of k.1 used ≡ false) out
  unfolding put_fingerprint_keys
  apart_from used [] keys out h e =
      let same : keys ≡ out = ground arith in
      subst (λ l. All (λ k. is_digest_of k.1 used ≡ false) l) same h
  apart_from used ((id, secret) ∷ more) keys out h e =
      elim (Bool-cases (is_digest_of (c.digest secret) used)) [
        | inl reused ↦ absurd (ground arith)
        | inr other ↦
            apart_from used more ((trim_space id, c.digest secret) ∷ keys) out (other, h)
              (ground arith)
      ]

  -- In a keyring that was made, no fingerprint key is an encryption key.
  pub keys_are_apart :
      (cfg : KeyringConfig) (ring : CredentialKeyring)
      → new_credential_keyring c cfg ≡ some ring
      → All (λ k. is_digest_of k.1 ring.encryption_keys ≡ false) ring.fingerprint_keys
  unfolding new_credential_keyring keyring_with
  keys_are_apart cfg ring e = elim (Option-cases (put_encryption_keys c cfg.encryption_keys [])) [
    | inl bad ↦ absurd (ground arith)
    | inr (encryption, good) ↦
        elim (Option-cases (put_fingerprint_keys c encryption cfg.fingerprint_keys [])) [
          | inl bad ↦ absurd (ground arith)
          | inr (fingerprints, fine) ↦
              (let k : ring.encryption_keys ≡ encryption = ground arith in
                let f : ring.fingerprint_keys ≡ fingerprints = ground arith in
                rw (k, f) (apart_from encryption cfg.fingerprint_keys [] fingerprints tt fine))
        ]
  ]
