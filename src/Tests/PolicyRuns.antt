-- ===== src/Tests/PolicyRuns.antt =====
-- Questions to the provider policy.
use tok_hub.Prelude.{◌+◌, ◌*◌, ◌≡◌, refl, inl, true, false, none, some, arith}
use tok_hub.Prelude.Text.{trim_space, to_lower}
use tok_hub.Clock.{Time, day, second}
use tok_hub.Clock.Date.{parse_date}
use tok_hub.Policy.{
  PolicySettings, connection_mode, connection_mode_for_auth_method, is_killed,
  provider_policy_allows_with_lab,
}
use tok_hub.Policy.Rules.{
  Refused, api_keys_always_allowed, kill_switch_refuses, lab_modes_stay_in_the_lab, reviews_lapse,
}

-- Every switch is on, and the observed terms are none of the reviewed ones.
abbrev stopped : PolicySettings
stopped = record { kill_switches = some (λ name. true); terms_digests = some (λ name. "changed") }

abbrev late : Time
late = 63_930_470_400 * second + day

stopped_key_is_allowed :
    provider_policy_allows_with_lab stopped "OpenAI" " api_key" false late ≡ none
unfolding connection_mode_for_auth_method connection_mode to_lower trim_space
stopped_key_is_allowed = api_keys_always_allowed stopped "OpenAI" " api_key" false late refl

killed_provider_runs : Refused (provider_policy_allows_with_lab stopped "gemini" "oauth" true 0)
unfolding connection_mode_for_auth_method is_killed connection_mode to_lower trim_space
killed_provider_runs = kill_switch_refuses stopped "gemini" "oauth" true 0 refl refl

lab_modes_stay_in_the_lab_example :
    Refused (provider_policy_allows_with_lab stopped "deepseek" "opencli_browser" false 0)
unfolding connection_mode_for_auth_method connection_mode to_lower trim_space
lab_modes_stay_in_the_lab_example =
    lab_modes_stay_in_the_lab stopped "deepseek" "opencli_browser" 0 (inl refl)

reviews_lapse_example :
    Refused (provider_policy_allows_with_lab stopped "openai" "official_client" true late)
unfolding connection_mode_for_auth_method parse_date connection_mode to_lower trim_space
reviews_lapse_example =
    reviews_lapse stopped "openai" "official_client" true late (63_930_470_400 * second) refl
      (omega arith) refl
