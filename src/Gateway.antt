-- ===== src/Gateway.antt =====
-- The gateway's loop over the upstreams of a request, handleRealGatewayGeneration of
-- internal/api/gateway_handlers.go: the first upstream that answers serves the request. What the loop
-- asks of others (the credentials of an upstream, their renewal, the call itself) is a record of
-- operations, which see the calls made so far and so may answer each call differently. Bodies of
-- requests and counts of tokens are passed through and left out.
pub mod Failover
pub mod Circuit
pub mod Admission
pub mod Candidates
pub mod Route
use tok_hub.Prelude.{
  ℕ, String, Bool, true, false, not, ◌&&◌, ◌||◌, Option, none, some, List, [], ◌∷◌, ◌++◌, ◌==◌, eqb,
  is_some, if◌then◌else◌,
}
use tok_hub.Prelude.Text.{trim_space, equal_fold}

-- What the gateway reads of an upstream; `auth_method` is the text under that key of its settings. The
-- numbers are not negative. A float64 that is not negative stands by its bits, which are ordered as the
-- numbers are.
pub record GatewayUpstream : Type 0 where
  pub channel_id : String
  pub provider : String
  pub model : String
  pub status : String
  pub score : ℕ
  pub success_rate : ℕ
  pub latency_p95_ms : ℕ
  pub cost_usd : ℕ
  pub enabled : Bool
  pub auth_method : String

unfoldable pub is_official_client_upstream : GatewayUpstream → Bool
is_official_client_upstream u = equal_fold (trim_space u.auth_method) "official_client"

unfoldable pub is_open_cli_browser_upstream : GatewayUpstream → Bool
is_open_cli_browser_upstream u = equal_fold (trim_space u.auth_method) "opencli_browser"

unfoldable pub gateway_candidates_use_local_connector : List GatewayUpstream → Bool
gateway_candidates_use_local_connector [] = false
gateway_candidates_use_local_connector (u ∷ us) =
    let rest = gateway_candidates_use_local_connector us in
    if is_official_client_upstream u || is_open_cli_browser_upstream u then true else rest

-- gatewayResolvedAuthorization, over the type of the managed material.
pub record Authorization (M : Type 0) : Type 0 where
  pub api_key : String
  pub material : Option M

-- gatewaycache.UpstreamResult, with whether the call also returned an error.
pub record UpstreamResult : Type 0 where
  pub failed : Bool
  pub body : String
  pub status_code : ℕ
  pub error_type : String
  pub wrote : Bool

pub record Call : Type 0 where
  pub channel_id : String
  pub result : UpstreamResult

-- gatewayUpstreamAuthorization, the forced refreshGatewayUpstreamAuthorization, and the calls of the
-- upstream client; `none` is an error.
pub record Backend (M : Type 0) : Type 0 where
  pub authorize : List Call → GatewayUpstream → Option (Authorization M)
  pub refresh : List Call → GatewayUpstream → Option (Authorization M)
  pub send : List Call → GatewayUpstream → Authorization M → UpstreamResult

unfoldable pub managed_authorization_rejected : {M : Type 0} → UpstreamResult → Option M → Bool
managed_authorization_rejected result material =
    is_some material && (eqb result.status_code 401 || eqb result.status_code 403)

abbrev pub call_of : GatewayUpstream → UpstreamResult → Call
call_of u result = record { channel_id = u.channel_id; result = result }

-- The condition of the second call of an upstream: the branch for streams also asks that nothing
-- was written.
unfoldable pub may_renew : {M : Type 0} → Bool → UpstreamResult → Option M → Bool
unfolding managed_authorization_rejected
may_renew stream result material =
    result.failed && managed_authorization_rejected result material && not (stream && result.wrote)

pub record Attempt : Type 0 where
  pub calls : List Call
  pub result : UpstreamResult

-- The call of an upstream, and the second one with renewed material.
unfoldable pub attempt :
    {M : Type 0} → Backend M → Bool → List Call → GatewayUpstream → Authorization M → Attempt
attempt backend stream calls u auth =
    let first = backend.send calls u auth in
    let calls' = calls ++ call_of u first ∷ [] in
    let once : Attempt = record { calls = calls'; result = first } in
    elim (may_renew stream first auth.material) [
      | false ↦ once
      | true ↦ elim (backend.refresh calls' u) [
        | none ↦ once
        | some renewed ↦ elim (is_some renewed.material) [
          | false ↦ once
          | true ↦
              (let second = backend.send calls' u renewed in
                record { calls = calls' ++ call_of u second ∷ []; result = second })
        ]
      ]
    ]

-- What the client gets: a body, the reply of a local handler, a stream that breaks off, or an error
-- with its status and code.
pub data Reply : Type 0 where
  answered : GatewayUpstream → UpstreamResult → Reply
  by_client by_browser broken_off : GatewayUpstream → Reply
  refused : ℕ → String → Reply

-- The row of gateway_request_events, by its channel, status and error type.
pub data GatewayEvent : Type 0 where
  success_event : String → ℕ → GatewayEvent
  failure_event : String → ℕ → String → GatewayEvent

pub record Outcome : Type 0 where
  pub reply : Reply
  pub calls : List Call
  pub opened : List String
  pub events : List GatewayEvent

-- recordGatewaySuccess
unfoldable pub success_status : ℕ → ℕ
success_status status_code = if eqb status_code 0 then 200 else status_code

-- The loop of handleRealGatewayGeneration, with the calls made, the circuits opened and the error
-- type to report.
unfoldable pub failover :
    {M : Type 0}
    → Backend M
    → Bool
    → List GatewayUpstream
    → String
    → List Call
    → List String
    → Outcome
failover backend stream [] last_error calls opened = record {
  reply = refused 502 "upstream_failed";
  calls = calls;
  opened = opened;
  events = failure_event "" 502 last_error ∷ [];
}
failover backend stream (u ∷ us) last_error calls opened =
    if is_official_client_upstream u
    then record { reply = by_client u; calls = calls; opened = opened; events = [] }
    else if is_open_cli_browser_upstream u
    then record { reply = by_browser u; calls = calls; opened = opened; events = [] }
    else elim (backend.authorize calls u) [
      | none ↦ failover backend stream us "upstream_credential_unavailable" calls opened
      | some auth ↦
          (let tried = attempt backend stream calls u auth in
            let error_type =
              if tried.result.error_type == "" then last_error else tried.result.error_type in
            elim tried.result.failed [
              | false ↦ record {
                reply = answered u tried.result;
                calls = tried.calls;
                opened = opened;
                events = success_event u.channel_id (success_status tried.result.status_code) ∷ [];
              }
              | true ↦ elim (stream && tried.result.wrote) [
                | true ↦ record {
                  reply = broken_off u;
                  calls = tried.calls;
                  opened = opened;
                  events = failure_event u.channel_id 502 error_type ∷ [];
                }
                | false ↦
                    failover backend stream us error_type tried.calls (opened ++ u.channel_id ∷ [])
              ]
            ])
    ]

-- The handler; `raw_is_json` says whether the body takes the name of the model.
unfoldable pub handle_real_gateway_generation :
    {M : Type 0} → Backend M → Bool → Bool → List GatewayUpstream → Outcome
handle_real_gateway_generation backend raw_is_json stream candidates =
    let served = failover backend stream candidates "upstream_failed" [] [] in
    if raw_is_json then served else record {
      reply = refused 400 "invalid_json";
      calls = [];
      opened = [];
      events = failure_event "" 400 "invalid_json" ∷ [];
    }
