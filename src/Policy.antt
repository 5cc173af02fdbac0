-- ===== src/Policy.antt =====
-- The provider policy, internal/connections/policy.go: which ways of connecting an account a
-- provider admits. The server's question, internal/api/connection_handlers.go, adds the operator's
-- kill switches and the observed digests of the terms.
pub mod Modes
pub mod Rules
use tok_hub.Prelude.{
  ◌+◌, String, Bool, true, false, not, ◌&&◌, ◌||◌, Option, none, some, List, [], ◌∷◌, ◌++◌, ◌==◌,
  any, ltb, if◌then◌else◌,
}
use tok_hub.Prelude.Text.{trim_space, to_lower, equal_fold}
use tok_hub.Clock.{Time, day}
use tok_hub.Clock.Date.{parse_date}

-- An error of the package; `none` is Go's nil.
pub data PolicyError : Type 0 where
  policy_denied policy_expired policy_killed terms_changed : PolicyError

pub record ProviderPolicy : Type 0 where
  pub provider : String
  pub allowed_production_modes : List String
  pub allowed_lab_modes : List String
  pub terms_url : String
  pub terms_digest : String
  pub reviewed_at : String
  pub review_expires_at : String
  pub identity_requirement : String
  pub kill_switch : Bool

abbrev pub openai_policy : ProviderPolicy
openai_policy = record {
  provider = "openai";
  allowed_production_modes = "official_api" ∷ "official_client" ∷ [];
  allowed_lab_modes = "browser_lab" ∷ [];
  terms_url = "https://openai.com/policies/terms-of-use/";
  terms_digest = "c1184229e7814acc940adca0b5e9e2df828b303fe4029c139187063fc5bc7f75";
  reviewed_at = "2026-08-19";
  review_expires_at = "2026-11-17";
  identity_requirement = "provider_account";
  kill_switch = false;
}

abbrev pub gemini_policy : ProviderPolicy
gemini_policy = record {
  provider = "gemini";
  allowed_production_modes = "official_api" ∷ "official_oauth" ∷ [];
  allowed_lab_modes = "browser_lab" ∷ [];
  terms_url = "https://github.com/google-gemini/gemini-cli/blob/main/docs/resources/tos-privacy.md";
  terms_digest = "e0a6a6c5972820d34de8a79cff7072ccafdd53eb54ac304dee8963cd719e899c";
  reviewed_at = "2026-08-19";
  review_expires_at = "2026-11-17";
  identity_requirement = "provider_account";
  kill_switch = false;
}

abbrev pub deepseek_policy : ProviderPolicy
deepseek_policy = record {
  provider = "deepseek";
  allowed_production_modes = "official_api" ∷ [];
  allowed_lab_modes = "browser_lab" ∷ "consumer_web" ∷ [];
  terms_url = "https://cdn.deepseek.com/policies/en-US/deepseek-terms-of-use.html";
  terms_digest = "4fc6b485ad042d51ad42a0bf57ddbe49e7afc4648b3b3a4b2446706390a61a48";
  reviewed_at = "2026-08-19";
  review_expires_at = "2026-11-17";
  identity_requirement = "provider_account";
  kill_switch = false;
}

abbrev pub grok_policy : ProviderPolicy
grok_policy = record {
  provider = "grok";
  allowed_production_modes = "official_api" ∷ "official_client" ∷ [];
  allowed_lab_modes = [];
  terms_url = "https://x.ai/legal/acceptable-use-policy";
  terms_digest = "3c902032e65649b00faf37fea43f61d3904b20b627ebccd03a719528fbad0f7c";
  reviewed_at = "2026-08-19";
  review_expires_at = "2026-11-17";
  identity_requirement = "device_or_provider_account";
  kill_switch = false;
}

unfoldable pub provider_policies : List ProviderPolicy
provider_policies = openai_policy ∷ gemini_policy ∷ deepseek_policy ∷ grok_policy ∷ []

-- The loop of ProviderPolicyFor.
unfoldable pub find_policy : String → List ProviderPolicy → Option ProviderPolicy
find_policy provider [] = none
find_policy provider (policy ∷ policies) =
    let rest = find_policy provider policies in
    if policy.provider == provider then some policy else rest

unfoldable pub provider_policy_for : String → Option ProviderPolicy
provider_policy_for provider = find_policy (to_lower (trim_space provider)) provider_policies

-- The switch of ConnectionModeForAuthMethod.
unfoldable pub connection_mode : String → String
connection_mode auth_method =
    if auth_method == "api_key" || auth_method == "api_key_guided"
    then "official_api"
    else if auth_method == "oauth"
    then "official_oauth"
    else if auth_method == "official_client"
    then "official_client"
    else if auth_method == "deepseek_web_token" || auth_method == "codex_oauth"
    then "consumer_web"
    else if auth_method == "opencli_browser"
    then "browser_lab"
    else ""

unfoldable pub connection_mode_for_auth_method : String → String
connection_mode_for_auth_method auth_method = connection_mode (to_lower (trim_space auth_method))

abbrev pub is_delegated : String → Bool
is_delegated mode = mode == "official_client" || mode == "browser_lab" || mode == "consumer_web"

-- `err != nil || !now.Before(expiresAt.Add(24*time.Hour))`
unfoldable pub review_over : Option Time → Time → Bool
review_over none now = true
review_over (some expires_at) now = not (ltb now (expires_at + day))

abbrev pub allowed_modes : ProviderPolicy → Bool → List String
allowed_modes p lab =
    if lab then p.allowed_production_modes ++ p.allowed_lab_modes else p.allowed_production_modes

-- `Allows` for a mode in its normal spelling.
unfoldable pub allows_mode : ProviderPolicy → String → Bool → Time → Option PolicyError
allows_mode p mode lab now =
    if p.kill_switch && not (mode == "official_api")
    then some policy_killed
    else if is_delegated mode && review_over (parse_date p.review_expires_at) now
    then some policy_expired
    else if any (λ candidate. candidate == mode) (allowed_modes p lab)
    then none
    else some policy_denied

unfoldable pub allows : ProviderPolicy → String → Bool → Time → Option PolicyError
allows p mode lab now = allows_mode p (to_lower (trim_space mode)) lab now

abbrev pub with_kill_switch : Bool → ProviderPolicy → ProviderPolicy
with_kill_switch killed p = record p { kill_switch = killed }

unfoldable pub provider_mode_allowed : String → String → Bool → Time → Bool → Option PolicyError
provider_mode_allowed provider auth_method lab now killed = elim (provider_policy_for provider) [
  | none ↦
      if connection_mode_for_auth_method auth_method == "official_api"
      then none
      else some policy_denied
  | some policy ↦
      allows (with_kill_switch killed policy) (connection_mode_for_auth_method auth_method) lab now
]

unfoldable pub validate_provider_terms_digest : String → String → String → Option PolicyError
validate_provider_terms_digest provider auth_method observed_digest =
    if connection_mode_for_auth_method auth_method == "official_api"
      || trim_space observed_digest == ""
    then none
    else elim (provider_policy_for provider) [
      | none ↦ some policy_denied
      | some policy ↦
          if equal_fold (trim_space observed_digest) policy.terms_digest
          then none
          else some terms_changed
    ]

-- The settings that the server's question reads: two maps, which may be nil. A missing key reads as
-- false and as "".
pub record PolicySettings : Type 0 where
  pub kill_switches : Option (String → Bool)
  pub terms_digests : Option (String → String)

unfoldable pub is_killed : Option (String → Bool) → String → Bool
is_killed none provider = false
is_killed (some switches) provider = switches provider

unfoldable pub check_terms : Option (String → String) → String → String → Option PolicyError
check_terms none provider auth_method = none
check_terms (some digests) provider auth_method =
    validate_provider_terms_digest provider auth_method (digests provider)

unfoldable pub provider_policy_allows_with_lab :
    PolicySettings → String → String → Bool → Time → Option PolicyError
provider_policy_allows_with_lab cfg provider auth_method lab now =
    let name = to_lower (trim_space provider) in
    let verdict =
      provider_mode_allowed name auth_method lab now (is_killed cfg.kill_switches name) in
    elim (check_terms cfg.terms_digests name auth_method) [ some e ↦ some e | none ↦ verdict ]
