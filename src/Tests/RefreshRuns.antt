-- ===== src/Tests/RefreshRuns.antt =====
-- Refreshes of a credential: two that read the same version, and the slots of a provider's gate.
use tok_hub.Prelude.{
  ◌+◌, ◌*◌, ◌≤◌, ◌≡◌, refl, true, false, none, some, [], ◌∷◌, Unique, find_where, count_where,
}
use tok_hub.Clock.{Time, second, minute, hour}
use tok_hub.Crypto.{CredentialEnvelope}
use tok_hub.Refresh.{
  SecretRow, AuthRow, RefreshDb, RefreshedSecret, other_error, ProviderGate, reserve_rate_slot,
  update_oauth_connection_secret, record_failure,
}
use tok_hub.Refresh.Versions.{secret_id, here, next, fails, second_refresh_conflicts}
use tok_hub.Refresh.Spacing.{after_slots, slots_are_spaced}

abbrev start : Time
start = 63_000_000_000_000_000_000

abbrev sealed : CredentialEnvelope
sealed = record {
  ciphertext = "c";
  nonce = "n";
  encryption_key_id = "k1";
  fingerprint = "f";
  fingerprint_key_id = "f1";
  algorithm = "aes-256-gcm";
}

abbrev secret : SecretRow
secret = record {
  connection_id = "c1";
  envelope = sealed;
  subject_fingerprint = "f";
  secret_type = "oauth_bundle";
  version = 3;
  expires_at = some start;
  next_refresh_at = some start;
  last_refreshed_at = none;
  refresh_failures = 0;
  last_refresh_error_code = "";
}

abbrev account : AuthRow
account = record {
  id = "c1";
  deleted = false;
  status = "active";
  auth_status = "active";
  last_error_code = "";
  last_error_message = "";
}

abbrev refreshed : RefreshedSecret
refreshed = record {
  envelope = sealed;
  subject_fingerprint = "f";
  expires_at = some (start + hour);
  next_refresh_at = some (start + 30 * minute);
}

abbrev tables : RefreshDb
tables = record { secrets = secret ∷ []; connections = account ∷ [] }

abbrev stored : RefreshDb
stored = (update_oauth_connection_secret tables "c1" 3 refreshed start).1

abbrev after_failure : RefreshDb
after_failure = (record_failure stored "c1" 4 0 other_error (start + minute)).1

secrets-Unique : Unique secret_id tables.secrets
unfolding find_where
secrets-Unique = (refl, tt)

stores : (update_oauth_connection_secret tables "c1" 3 refreshed start).0 ≡ true
unfolding update_oauth_connection_secret count_where
stores = refl

second_refresh_conflicts_example :
    update_oauth_connection_secret after_failure "c1" 3 refreshed (start + 2 * minute)
    ≡ (false, after_failure)
second_refresh_conflicts_example =
    second_refresh_conflicts tables after_failure "c1" 3 refreshed refreshed start
      (start + 2 * minute) secrets-Unique stores
      (next here (fails "c1" 4 0 other_error (start + minute)))

abbrev gate : ProviderGate
gate = record { next = start; interval = 500_000_000 }

slots_are_spaced_example :
    ((reserve_rate_slot gate start).0 + gate.interval
      ≤ (reserve_rate_slot
          (after_slots (reserve_rate_slot gate start).1 (start ∷ []))
          (start + second)).0)
    × (start ≤ (reserve_rate_slot gate start).0)
slots_are_spaced_example = slots_are_spaced gate start (start + second) (start ∷ [])
