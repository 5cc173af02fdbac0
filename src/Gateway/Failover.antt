-- ===== src/Gateway/Failover.antt =====
-- The cases of one round of the loop over the upstreams.
pub mod Attempts
pub mod Writes
pub mod Events
pub mod Reach
use tok_hub.Prelude.{
  ℕ, String, ◌≡◌, refl, ◌⊎◌, inl, inr, Bool, true, false, ◌&&◌, Option, none, some, List, [], ◌∷◌,
  ◌++◌, ◌==◌, if◌then◌else◌, Bool-cases, Option-cases,
}
use tok_hub.Gateway.{
  GatewayUpstream, Authorization, Backend, Call, Attempt, Outcome, is_official_client_upstream,
  is_open_cli_browser_upstream, attempt, answered, by_client, by_browser, broken_off, success_event,
  failure_event, success_status, failover,
}

-- The error type that a failed attempt leaves.
abbrev pub error_after : Attempt → String → String
error_after tried last_error =
    if tried.result.error_type == "" then last_error else tried.result.error_type

module _ {M : Type 0} (backend : Backend M) (stream : Bool) (u : GatewayUpstream)
    (us : List GatewayUpstream) (last_error : String) (calls : List Call)
    (opened : List String) where
  abbrev pub tried : Authorization M → Attempt
  tried auth = attempt backend stream calls u auth

  -- What the loop returns when it comes to the upstream `u` in front of `us`.
  pub data Round : Outcome → Type 0 where
    client :
        is_official_client_upstream u ≡ true
        → Round (record { reply = by_client u; calls = calls; opened = opened; events = [] })
    browser :
        is_open_cli_browser_upstream u ≡ true
        → Round (record { reply = by_browser u; calls = calls; opened = opened; events = [] })
    no_credential :
        backend.authorize calls u ≡ none
        → Round (failover backend stream us "upstream_credential_unavailable" calls opened)
    serves :
        (auth : Authorization M)
        → backend.authorize calls u ≡ some auth
        → (tried auth).result.failed ≡ false
        → Round (record {
          reply = answered u (tried auth).result;
          calls = (tried auth).calls;
          opened = opened;
          events = success_event u.channel_id (success_status (tried auth).result.status_code) ∷ [];
        })
    breaks :
        (auth : Authorization M)
        → (tried auth).result.failed ≡ true
        → (stream && (tried auth).result.wrote) ≡ true
        → Round (record {
          reply = broken_off u;
          calls = (tried auth).calls;
          opened = opened;
          events = failure_event u.channel_id 502 (error_after (tried auth) last_error) ∷ [];
        })
    fails :
        (auth : Authorization M)
        → backend.authorize calls u ≡ some auth
        → (tried auth).result.failed ≡ true
        → (stream && (tried auth).result.wrote) ≡ false
        → Round (
            failover backend stream us
              (error_after (tried auth) last_error)
              (tried auth).calls
              (opened ++ u.channel_id ∷ []))

  pub round : Round (failover backend stream (u ∷ us) last_error calls opened)
  unfolding failover
  round = elim (Bool-cases (is_official_client_upstream u)) [
    | inl a ↦ rw (failover, a) (client a)
    | inr a ↦ elim (Bool-cases (is_open_cli_browser_upstream u)) [
      | inl b ↦ rw (failover, a, b) (browser b)
      | inr b ↦ elim (Option-cases (backend.authorize calls u)) [
        | inl e ↦ rw (failover, a, b, e) (no_credential e)
        | inr (auth, e) ↦ elim (Bool-cases (tried auth).result.failed) [
          | inr ok ↦ rw (failover, a, b, e, ok) (serves auth e ok)
          | inl bad ↦ elim (Bool-cases (stream && (tried auth).result.wrote)) [
            | inl w ↦ rw (failover, a, b, e, bad, w) (breaks auth bad w)
            | inr w ↦ rw (failover, a, b, e, bad, w) (fails auth e bad w)
          ]
        ]
      ]
    ]
  ]
