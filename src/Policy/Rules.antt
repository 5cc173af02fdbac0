-- ===== src/Policy/Rules.antt =====
-- What the provider policy guarantees, whatever the provider.
use tok_hub.Prelude.{
  ◌≤◌, ◌+◌, String, ◌≡◌, refl, ◌⊎◌, inl, inr, Bool, true, false, not, ◌&&◌, Option, none, some,
  ◌++◌, ◌==◌, arith, any, is_some, if◌then◌else◌, All, Bool-cases, Option-cases, ne_other,
}
use tok_hub.Prelude.Text.{trim_space, to_lower}
use tok_hub.Clock.{Time, day}
use tok_hub.Clock.Date.{parse_date}
use tok_hub.Policy.{
  PolicyError, policy_denied, policy_expired, policy_killed, ProviderPolicy, PolicySettings,
  openai_policy, gemini_policy, deepseek_policy, grok_policy, provider_policies,
  connection_mode_for_auth_method, is_delegated, review_over, allowed_modes, allows_mode,
  with_kill_switch, provider_mode_allowed, validate_provider_terms_digest, is_killed, check_terms,
  provider_policy_allows_with_lab,
}
use tok_hub.Policy.Modes.{for_every_provider}

-- The operator's settings name the provider on a kill switch.
abbrev pub Killed : PolicySettings → String → Type 0
Killed cfg provider = is_killed cfg.kill_switches (to_lower (trim_space provider)) ≡ true

abbrev pub Refused : Option PolicyError → Type 0
Refused verdict = is_some verdict ≡ true

abbrev unknown_verdict : String → Option PolicyError
unknown_verdict mode = if mode == "official_api" then none else some policy_denied

-- The compiled policies, one by one.
every_policy {κ} :
    (P : ProviderPolicy → Type κ)
    → P openai_policy
    → P gemini_policy
    → P deepseek_policy
    → P grok_policy
    → All P provider_policies
unfolding provider_policies
every_policy P a b c d = (a, (b, (c, (d, tt))))

-- The digests of the terms refuse only what is not an API key.
api_terms :
    (digests : Option (String → String)) (provider auth : String)
    → connection_mode_for_auth_method auth ≡ "official_api"
    → check_terms digests provider auth ≡ none
unfolding check_terms validate_provider_terms_digest
api_terms none provider auth e = refl
api_terms (some digests) provider auth e = rw (e, validate_provider_terms_digest) refl

api_mode :
    (p : ProviderPolicy) (killed lab : Bool) (now : Time)
    → ((b : Bool) → any (λ c. c == "official_api") (allowed_modes p b) ≡ true)
    → allows_mode (with_kill_switch killed p) "official_api" lab now ≡ none
unfolding allows_mode
api_mode p true lab now h = rw (h lab) refl
api_mode p false lab now h = rw (h lab) refl

in_both :
    (p : ProviderPolicy)
    → any (λ c. c == "official_api") p.allowed_production_modes ≡ true
    → any (λ c. c == "official_api") (p.allowed_production_modes ++ p.allowed_lab_modes) ≡ true
    → (b : Bool) → any (λ c. c == "official_api") (allowed_modes p b) ≡ true
in_both p h k true = k
in_both p h k false = h

-- An account that connects by an API key is admitted for every provider, with or without lab mode:
-- no kill switch, no lapsed review and no change of the terms stops it.
pub api_keys_always_allowed :
    (cfg : PolicySettings) (provider auth : String) (lab : Bool) (now : Time)
    → connection_mode_for_auth_method auth ≡ "official_api"
    → provider_policy_allows_with_lab cfg provider auth lab now ≡ none
unfolding provider_policy_allows_with_lab
api_keys_always_allowed cfg provider auth lab now e =
    let name = to_lower (trim_space provider) in
    let killed = is_killed cfg.kill_switches name in
    rw (provider_policy_allows_with_lab, api_terms cfg.terms_digests name auth e)
      (for_every_provider (λ o. o ≡ none) name auth lab now killed (rw e refl)
        (rw e (
          every_policy _ (api_mode openai_policy killed lab now (in_both openai_policy refl refl))
            (api_mode gemini_policy killed lab now (in_both gemini_policy refl refl))
            (api_mode deepseek_policy killed lab now (in_both deepseek_policy refl refl))
            (api_mode grok_policy killed lab now (in_both grok_policy refl refl)))))

-- A refusal of the compiled policy is a refusal of the server.
verdict-Refused :
    (cfg : PolicySettings) (provider auth : String) (lab : Bool) (now : Time)
    → Refused (
        provider_mode_allowed
          (to_lower (trim_space provider))
          auth
          lab
          now
          (is_killed cfg.kill_switches (to_lower (trim_space provider))))
    → Refused (provider_policy_allows_with_lab cfg provider auth lab now)
unfolding provider_policy_allows_with_lab
verdict-Refused cfg provider auth lab now h =
    elim (Option-cases (check_terms cfg.terms_digests (to_lower (trim_space provider)) auth)) [
      | inl none_of ↦ rw (provider_policy_allows_with_lab, none_of) h
      | inr (e, changed) ↦ rw (provider_policy_allows_with_lab, changed) refl
    ]

unknown-Refused :
    (mode : String) → (mode == "official_api") ≡ false → Refused (unknown_verdict mode)
unknown-Refused mode h = rw h refl

killed-Refused :
    (p : ProviderPolicy) (mode : String) (lab : Bool) (now : Time)
    → (mode == "official_api") ≡ false
    → Refused (allows_mode (with_kill_switch true p) mode lab now)
unfolding allows_mode
killed-Refused p mode lab now h = rw (allows_mode, h) refl

last-Refused :
    (a b : Bool)
    → Refused
        (if a then some policy_killed else if b then some policy_expired else some policy_denied)
last-Refused true b = refl
last-Refused false true = refl
last-Refused false false = refl

not_listed-Refused :
    (p : ProviderPolicy) (mode : String) (lab : Bool) (now : Time)
    → any (λ c. c == mode) (allowed_modes p lab) ≡ false
    → Refused (allows_mode p mode lab now)
unfolding allows_mode
not_listed-Refused p mode lab now h =
    rw (allows_mode, h)
      (last-Refused (p.kill_switch && not (mode == "official_api"))
        (is_delegated mode && review_over (parse_date p.review_expires_at) now))

over-Refused :
    (p : ProviderPolicy) (mode : String) (lab : Bool) (now : Time)
    → is_delegated mode ≡ true
    → review_over (parse_date p.review_expires_at) now ≡ true
    → Refused (allows_mode p mode lab now)
unfolding allows_mode
over-Refused p mode lab now h k =
    rw (allows_mode, h, k)
      (elim (Bool-cases (p.kill_switch && not (mode == "official_api"))) [
        | inl killed ↦ rw killed refl
        | inr not_killed ↦ rw not_killed refl
      ])

-- A kill switch refuses every way but API keys, for every provider.
pub kill_switch_refuses :
    (cfg : PolicySettings) (provider auth : String) (lab : Bool) (now : Time)
    → Killed cfg provider
    → (connection_mode_for_auth_method auth == "official_api") ≡ false
    → Refused (provider_policy_allows_with_lab cfg provider auth lab now)
kill_switch_refuses cfg provider auth lab now killed h =
    let mode = connection_mode_for_auth_method auth in
    verdict-Refused cfg provider auth lab now (
      rw killed (
        for_every_provider Refused (to_lower (trim_space provider)) auth lab now true
          (unknown-Refused mode h)
          (every_policy _ (killed-Refused openai_policy mode lab now h)
            (killed-Refused gemini_policy mode lab now h)
            (killed-Refused deepseek_policy mode lab now h)
            (killed-Refused grok_policy mode lab now h))))

-- Without the lab mode of the operator, no account connects by the browser or by a consumer's web
-- login, whatever the provider.
pub lab_modes_stay_in_the_lab :
    (cfg : PolicySettings) (provider auth : String) (now : Time)
    → (connection_mode_for_auth_method auth ≡ "browser_lab")
      ⊎ (connection_mode_for_auth_method auth ≡ "consumer_web")
    → Refused (provider_policy_allows_with_lab cfg provider auth false now)
lab_modes_stay_in_the_lab cfg provider auth now which =
    let name = to_lower (trim_space provider) in
    let killed = is_killed cfg.kill_switches name in
    verdict-Refused cfg provider auth false now (elim which [
      | inl e ↦ for_every_provider Refused name auth false now killed (rw e refl) (
          rw e (
            every_policy _
              (not_listed-Refused (with_kill_switch killed openai_policy) _ false now refl)
              (not_listed-Refused (with_kill_switch killed gemini_policy) _ false now refl)
              (not_listed-Refused (with_kill_switch killed deepseek_policy) _ false now refl)
              (not_listed-Refused (with_kill_switch killed grok_policy) _ false now refl)))
      | inr e ↦ for_every_provider Refused name auth false now killed (rw e refl) (
          rw e (
            every_policy _
              (not_listed-Refused (with_kill_switch killed openai_policy) _ false now refl)
              (not_listed-Refused (with_kill_switch killed gemini_policy) _ false now refl)
              (not_listed-Refused (with_kill_switch killed deepseek_policy) _ false now refl)
              (not_listed-Refused (with_kill_switch killed grok_policy) _ false now refl)))
    ])

review_over-ended : (ends now : Time) → ends + day ≤ now → review_over (some ends) now ≡ true
unfolding review_over
review_over-ended ends now h = ground arith

delegated_not_api : (mode : String) → is_delegated mode ≡ true → (mode == "official_api") ≡ false
delegated_not_api mode h = ground (
  arith,
  ne_other mode "official_client" "official_api" refl,
  ne_other mode "browser_lab" "official_api" refl,
  ne_other mode "consumer_web" "official_api" refl,
)

-- Once the day after 2026-11-17 begins, the end of every review, no account connects by a client,
-- by the browser or by a web login, whatever the provider and with lab mode too.
pub reviews_lapse :
    (cfg : PolicySettings) (provider auth : String) (lab : Bool) (now ends : Time)
    → parse_date "2026-11-17" ≡ some ends
    → ends + day ≤ now
    → is_delegated (connection_mode_for_auth_method auth) ≡ true
    → Refused (provider_policy_allows_with_lab cfg provider auth lab now)
reviews_lapse cfg provider auth lab now ends e over delegated =
    let name = to_lower (trim_space provider) in
    let killed = is_killed cfg.kill_switches name in
    let mode = connection_mode_for_auth_method auth in
    let lapsed : review_over (parse_date "2026-11-17") now ≡ true =
      rw e (review_over-ended ends now over) in
    verdict-Refused cfg provider auth lab now (
      for_every_provider Refused name auth lab now killed
        (unknown-Refused mode (delegated_not_api mode delegated))
        (every_policy _
          (over-Refused (with_kill_switch killed openai_policy) mode lab now delegated lapsed)
          (over-Refused (with_kill_switch killed gemini_policy) mode lab now delegated lapsed)
          (over-Refused (with_kill_switch killed deepseek_policy) mode lab now delegated lapsed)
          (over-Refused (with_kill_switch killed grok_policy) mode lab now delegated lapsed)))
