-- ===== src/Refresh.antt =====
-- The refresh of OAuth credentials, internal/events/credential_refresh_runtime.go, and the transactions of
-- internal/store/connection_auth.go that keep its outcome. The refresh itself is a call of the provider;
-- what it leads to is an argument. Versions are numbers that are not negative.
pub mod Versions
pub mod Spacing
use tok_hub.Prelude.{
  ℕ, suc, ◌+◌, ◌*◌, ◌/◌, ◌-◌, String, Bool, true, false, not, ◌&&◌, ◌||◌, Option, none, some, List,
  [], ◌∷◌, ◌==◌, eqb, ltb, leb, is_some, update_where, count_where, find_where, if◌then◌else◌,
}
use tok_hub.Prelude.Text.{trim_space, to_lower}
use tok_hub.Clock.{Time, Duration, second, minute, hour}
use tok_hub.Crypto.{CredentialEnvelope}

-- A row of ai_connection_secrets.
pub record SecretRow : Type 0 where
  pub connection_id : String
  pub envelope : CredentialEnvelope
  pub subject_fingerprint : String
  pub secret_type : String
  pub version : ℕ
  pub expires_at : Option Time
  pub next_refresh_at : Option Time
  pub last_refreshed_at : Option Time
  pub refresh_failures : ℕ
  pub last_refresh_error_code : String

-- What the refresh reads and writes of a row of ai_connections.
pub record AuthRow : Type 0 where
  pub id : String
  pub deleted : Bool
  pub status : String
  pub auth_status : String
  pub last_error_code : String
  pub last_error_message : String

pub record RefreshDb : Type 0 where
  pub secrets : List SecretRow
  pub connections : List AuthRow

-- What a refresh stores.
pub record RefreshedSecret : Type 0 where
  pub envelope : CredentialEnvelope
  pub subject_fingerprint : String
  pub expires_at : Option Time
  pub next_refresh_at : Option Time

abbrev pub is_version_of : String → ℕ → SecretRow → Bool
is_version_of id version s =
    s.connection_id == id && eqb s.version version && s.secret_type == "oauth_bundle"

abbrev pub is_live_connection : String → AuthRow → Bool
is_live_connection id c = c.id == id && not c.deleted

unfoldable pub store_refreshed : RefreshedSecret → Time → SecretRow → SecretRow
store_refreshed secret now s = record s {
  envelope = secret.envelope;
  subject_fingerprint = secret.subject_fingerprint;
  expires_at = secret.expires_at;
  next_refresh_at = secret.next_refresh_at;
  last_refreshed_at = some now;
  refresh_failures = 0;
  last_refresh_error_code = "";
  version = suc s.version;
}

-- UpdateOAuthConnectionSecret, with whether it is done: it is rolled back with a conflict where it
-- does not meet one row of the version.
unfoldable pub update_oauth_connection_secret :
    RefreshDb → String → ℕ → RefreshedSecret → Time → Bool × RefreshDb
update_oauth_connection_secret db id version secret now =
    if eqb (count_where (is_version_of id version) db.secrets) 1
    then (
      true,
      record {
        secrets = update_where (is_version_of id version) (store_refreshed secret now) db.secrets;
        connections =
            update_where (is_live_connection id)
              (λ c. record c {
                auth_status = "active";
                last_error_code = "";
                last_error_message = "";
              })
              db.connections;
      },
    )
    else (false, db)

unfoldable pub count_failure : Bool → String → Time → SecretRow → SecretRow
count_failure reauth code next s = record s {
  refresh_failures = suc s.refresh_failures;
  last_refresh_error_code = code;
  next_refresh_at = (if reauth then none else some next);
}

-- MarkOAuthRefreshFailure
unfoldable pub mark_oauth_refresh_failure :
    RefreshDb → String → ℕ → Bool → String → Time → Bool × RefreshDb
mark_oauth_refresh_failure db id version reauth code next =
    if not (is_some (find_where (is_live_connection id) db.connections))
    then (false, db)
    else if eqb (count_where (is_version_of id version) db.secrets) 1
    then (
      true,
      record {
        secrets =
            update_where (is_version_of id version) (count_failure reauth code next) db.secrets;
        connections =
            update_where (is_live_connection id)
              (λ c. record c {
                auth_status = (if reauth then "reauth_required" else "attention");
                last_error_code = code;
                last_error_message = (if reauth then "登录授权已失效，请重新登录" else "授权续期暂时失败，系统将自动重试");
              })
              db.connections;
      },
    )
    else (false, db)

-- The candidates of OAuthRefreshCandidates: a secret that is due of a connection that is in use.
unfoldable pub is_due : RefreshDb → Time → SecretRow → Bool
is_due db now s =
    s.secret_type == "oauth_bundle"
    && (elim s.next_refresh_at [ none ↦ false | some t ↦ leb t now ])
    && is_some (
        find_where
          (λ c.
            c.id == s.connection_id
            && not c.deleted
            && (c.status == "active" || c.status == "attention")
            && (c.auth_status == "active" || c.auth_status == "attention"))
          db.connections)

unfoldable pub credential_refresh_backoff : ℕ → Duration
credential_refresh_backoff failures =
    if eqb failures 1
    then minute
    else if eqb failures 2
    then 5 * minute
    else if eqb failures 3
    then 15 * minute
    else hour

pub data RefreshError : Type 0 where
  credential_reauth adapter_disabled other_error : RefreshError

unfoldable pub classify_credential_refresh_error : RefreshError → String × Bool
classify_credential_refresh_error credential_reauth = ("invalid_grant", true)
classify_credential_refresh_error adapter_disabled = ("adapter_disabled", false)
classify_credential_refresh_error other_error = ("refresh_temporary", false)

-- recordFailure, for a secret of `version` that was read with `failures`; its context still allows the
-- write, and `now` is the server's clock.
unfoldable pub record_failure : RefreshDb → String → ℕ → ℕ → RefreshError → Time → Bool × RefreshDb
record_failure db id version failures error now =
    let (code, reauth) = classify_credential_refresh_error error in
    mark_oauth_refresh_failure db id version reauth code
      (now + credential_refresh_backoff (suc failures))

-- The gate of a provider: the next free slot and the interval between two.
pub record ProviderGate : Type 0 where
  pub next : Time
  pub interval : Duration

-- newCredentialRefreshProviderGate, for the rate.
unfoldable pub new_provider_gate : ℕ → ProviderGate
new_provider_gate qps = record { next = 0; interval = second / (if eqb qps 0 then 1 else qps) }

-- reserveRateSlot
unfoldable pub reserve_rate_slot : ProviderGate → Time → Time × ProviderGate
reserve_rate_slot g now =
    let slot = if ltb g.next now then now else g.next in
    (slot, record g { next = slot + g.interval })
