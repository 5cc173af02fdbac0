-- ===== src/Crypto.antt =====
-- The keyring that seals the credentials of account connections, internal/crypto/keyring.go: keys go by
-- ids, a new credential is sealed with the active one, and an old one is opened with the key that its
-- envelope names. SHA-256, AES-GCM, HMAC and base64 are a record of operations. The mask of a secret,
-- which is only shown, is left out. A Go map has its entries in any order, here that of the list.
pub mod Keyring
use tok_hub.Prelude.{
  ℕ, String, ◌≡◌, Bool, true, false, not, ◌||◌, Option, none, some, List, [], ◌∷◌, ◌==◌, ltb,
  is_some, any, if◌then◌else◌, find_where,
}
use Prim.Native.String.{◌++◌}
use tok_hub.Prelude.Text.{trim_space, to_lower, byte_length, truncate_runes}

pub record Cipher (B : Type 0) : Type 0 where
  pub digest : String → String
  pub seal : String → B → String → String → B
  pub open_sealed : String → B → B → String → Option String
  pub mac : String → String → String
  pub encode : B → String
  pub decode : String → Option B

-- What is documented of them: what was sealed opens with its key and nonce under the context that it
-- was sealed with, and under no other, and base64 is read back.
pub record CipherLaws {B : Type 0} (c : Cipher B) : Type 0 where
  pub open-seal :
      (key : String) (nonce : B) (plain context : String)
      → c.open_sealed key nonce (c.seal key nonce plain context) context ≡ some plain
  pub open-context :
      (key : String) (nonce : B) (plain context other read : String)
      → c.open_sealed key nonce (c.seal key nonce plain context) other ≡ some read
      → other ≡ context
  pub decode-encode : (b : B) → c.decode (c.encode b) ≡ some b

-- A map of ids to keys, in the order in which they were put, the last in front.
abbrev pub Keys : Type 0
Keys = List (String × String)

unfoldable pub find_key : String → Keys → Option String
find_key id keys = elim (find_where (λ k. k.0 == id) keys) [ none ↦ none | some k ↦ some k.1 ]

pub record KeyringConfig : Type 0 where
  pub active_encryption_key_id : String
  pub encryption_keys : List (String × String)
  pub active_fingerprint_key_id : String
  pub fingerprint_keys : List (String × String)

pub record CredentialEnvelope : Type 0 where
  pub ciphertext : String
  pub nonce : String
  pub encryption_key_id : String
  pub fingerprint : String
  pub fingerprint_key_id : String
  pub algorithm : String

pub record CredentialKeyring : Type 0 where
  pub active_encryption_key_id : String
  pub encryption_keys : Keys
  pub active_fingerprint_key_id : String
  pub fingerprint_keys : Keys

-- The condition on an id and its secret.
abbrev pub is_bad_key : String → String → Bool
is_bad_key id secret = trim_space id == "" || ltb (byte_length (trim_space secret)) 32

abbrev pub is_digest_of : String → Keys → Bool
is_digest_of digest keys = is_some (find_where (λ k. k.1 == digest) keys)

module _ {B : Type 0} (c : Cipher B) where
  -- The loop over the encryption keys, with the keys before.
  unfoldable pub put_encryption_keys : List (String × String) → Keys → Option Keys
  put_encryption_keys [] keys = some keys
  put_encryption_keys ((id, secret) ∷ more) keys =
      let rest = put_encryption_keys more ((trim_space id, c.digest secret) ∷ keys) in
      if is_bad_key id secret then none else rest

  -- The loop over the fingerprint keys, whose secrets are none of the encryption keys'.
  unfoldable pub put_fingerprint_keys : Keys → List (String × String) → Keys → Option Keys
  put_fingerprint_keys used [] keys = some keys
  put_fingerprint_keys used ((id, secret) ∷ more) keys =
      let rest = put_fingerprint_keys used more ((trim_space id, c.digest secret) ∷ keys) in
      if is_bad_key id secret || is_digest_of (c.digest secret) used then none else rest

  -- NewCredentialKeyring, from the fingerprint keys on.
  unfoldable pub keyring_with : KeyringConfig → Keys → Option CredentialKeyring
  keyring_with cfg encryption = elim (put_fingerprint_keys encryption cfg.fingerprint_keys []) [
    | none ↦ none
    | some fingerprints ↦
        if is_some (find_key (trim_space cfg.active_fingerprint_key_id) fingerprints)
        then some (record {
          active_encryption_key_id = trim_space cfg.active_encryption_key_id;
          encryption_keys = encryption;
          active_fingerprint_key_id = trim_space cfg.active_fingerprint_key_id;
          fingerprint_keys = fingerprints;
        })
        else none
  ]

  -- NewCredentialKeyring
  unfoldable pub new_credential_keyring : KeyringConfig → Option CredentialKeyring
  new_credential_keyring cfg =
      if trim_space cfg.active_encryption_key_id == ""
        || trim_space cfg.active_fingerprint_key_id == ""
      then none
      else elim (put_encryption_keys cfg.encryption_keys []) [
        | none ↦ none
        | some encryption ↦
            if is_some (find_key (trim_space cfg.active_encryption_key_id) encryption)
            then keyring_with cfg encryption
            else none
      ]

-- credentialContext
unfoldable pub credential_context : String → String → String
credential_context owner provider = trim_space owner ++ "\0" ++ to_lower (trim_space provider)

module _ {B : Type 0} (c : Cipher B) where
  -- EncryptWithFingerprint, with the nonce that is drawn. Both active keys are in the keyring.
  unfoldable pub encrypt_with_fingerprint :
      CredentialKeyring → String → String → String → String → B → Option CredentialEnvelope
  encrypt_with_fingerprint ring owner provider plain source nonce =
      let context = credential_context owner provider in
      if trim_space plain == "" || trim_space source == ""
      then none
      else elim (find_key ring.active_encryption_key_id ring.encryption_keys) [
        | none ↦ none
        | some key ↦ elim (find_key ring.active_fingerprint_key_id ring.fingerprint_keys) [
          | none ↦ none
          | some fingerprint_key ↦ some (record {
            ciphertext = c.encode (c.seal key nonce (trim_space plain) context);
            nonce = c.encode nonce;
            encryption_key_id = ring.active_encryption_key_id;
            fingerprint =
                truncate_runes (c.mac fingerprint_key (context ++ "\0" ++ trim_space source)) 24;
            fingerprint_key_id = ring.active_fingerprint_key_id;
            algorithm = "aes-256-gcm";
          })
        ]
      ]

  -- Encrypt
  unfoldable pub encrypt :
      CredentialKeyring → String → String → String → B → Option CredentialEnvelope
  encrypt ring owner provider plain nonce =
      encrypt_with_fingerprint ring owner provider plain plain nonce

  -- Decrypt
  unfoldable pub decrypt : CredentialKeyring → String → String → CredentialEnvelope → Option String
  decrypt ring owner provider e =
      elim (find_key (trim_space e.encryption_key_id) ring.encryption_keys) [
        | none ↦ none
        | some key ↦ elim (c.decode e.ciphertext) [
          | none ↦ none
          | some ciphertext ↦ elim (c.decode e.nonce) [
            | none ↦ none
            | some nonce ↦ c.open_sealed key nonce ciphertext (credential_context owner provider)
          ]
        ]
      ]
