-- ===== src/Tests/CryptoRuns.antt =====
-- The keyring: a credential that is sealed, and opened after the active key has changed.
use tok_hub.Prelude.{String, ◌≡◌, refl, false, some, [], ◌∷◌, ◌==◌, All, find_where}
use tok_hub.Prelude.Text.{trim_space, to_lower, byte_length, truncate_runes}
use tok_hub.Crypto.{
  find_key, KeyringConfig, CredentialEnvelope, CredentialKeyring, put_encryption_keys,
  put_fingerprint_keys, keyring_with, new_credential_keyring, credential_context,
  encrypt_with_fingerprint, decrypt, is_digest_of,
}
use tok_hub.Crypto.Keyring.{sealed_is_opened, sealed_is_bound, keys_are_apart}
use tok_hub.Tests.ToyCipher.{toy_cipher, toy_cipher_laws, weave, unweave}

abbrev old : String
old = "an old secret of thirty-two bytes"

abbrev fresh : String
fresh = "a fresh secret of thirty-two bytes"

abbrev seals : String
seals = "a secret of the fingerprints alone"

abbrev config : KeyringConfig
config = record {
  active_encryption_key_id = " k1";
  encryption_keys = ("k1", old) ∷ [];
  active_fingerprint_key_id = "f1";
  fingerprint_keys = ("f1", seals) ∷ [];
}

abbrev ring : CredentialKeyring
ring = record {
  active_encryption_key_id = "k1";
  encryption_keys = ("k1", old) ∷ [];
  active_fingerprint_key_id = "f1";
  fingerprint_keys = ("f1", seals) ∷ [];
}

-- The keyring after a rotation.
abbrev rotated : CredentialKeyring
rotated = record ring {
  active_encryption_key_id = "k2";
  encryption_keys = ("k2", fresh) ∷ ("k1", old) ∷ [];
}

makes_ring : new_credential_keyring toy_cipher config ≡ some ring
unfolding new_credential_keyring put_encryption_keys put_fingerprint_keys keyring_with find_key
    find_where trim_space byte_length
makes_ring = refl

keeps_key : find_key "k1" rotated.encryption_keys ≡ find_key "k1" ring.encryption_keys
unfolding find_key find_where
keeps_key = refl

credential_given : (trim_space " sk-1 " == "") ≡ false
unfolding trim_space
credential_given = refl

sealed_is_opened_example :
    (e : CredentialEnvelope) × (encrypt_with_fingerprint toy_cipher ring "u" "OpenAI" " sk-1 "
        " sk-1 " "n"
      ≡ some e)
    × (decrypt toy_cipher rotated "u" "OpenAI" e ≡ some (trim_space " sk-1 "))
sealed_is_opened_example =
    sealed_is_opened toy_cipher toy_cipher_laws config ring rotated makes_ring keeps_key "u"
      "OpenAI" " sk-1 " " sk-1 " "n" credential_given credential_given

abbrev envelope : CredentialEnvelope
envelope = record {
  ciphertext = "1u1\01o1p1e1n1a1i0sk-1";
  nonce = "n";
  encryption_key_id = "k1";
  fingerprint = "u\0openai\0sk-1";
  fingerprint_key_id = "f1";
  algorithm = "aes-256-gcm";
}

seals_it :
    encrypt_with_fingerprint toy_cipher ring "u" "OpenAI" " sk-1 " " sk-1 " "n" ≡ some envelope
unfolding encrypt_with_fingerprint credential_context trim_space to_lower find_key find_where weave
    truncate_runes
seals_it = refl

reads_it : decrypt toy_cipher rotated " u" "openai " envelope ≡ some "sk-1"
unfolding decrypt credential_context trim_space to_lower find_key find_where unweave
reads_it = refl

sealed_is_bound_example : credential_context " u" "openai " ≡ credential_context "u" "OpenAI"
sealed_is_bound_example =
    sealed_is_bound toy_cipher toy_cipher_laws config ring rotated makes_ring keeps_key "u" "OpenAI"
      " sk-1 " " sk-1 " "n" envelope seals_it credential_given credential_given " u" "openai "
      "sk-1" reads_it

keys_are_apart_example :
    All (λ k. is_digest_of k.1 ring.encryption_keys ≡ false) ring.fingerprint_keys
keys_are_apart_example = keys_are_apart toy_cipher config ring makes_ring
