-- ===== src/Tests/GatewayRuns.antt =====
-- Requests through the gateway: an upstream that fails, one that renews its credential, one that works.
use tok_hub.Prelude.{
  All, ◌*◌, String, ◌≡◌, ◌≢◌, refl, inl, List, Occurs, true, false, none, some, [], ◌∷◌, ◌==◌,
  arith, if◌then◌else◌,
}
use tok_hub.Prelude.Text.{trim_space, to_lower, equal_fold}
use tok_hub.Clock.{second}
use tok_hub.Gateway.{
  GatewayUpstream, UpstreamResult, Backend, is_official_client_upstream,
  is_open_cli_browser_upstream, managed_authorization_rejected, may_renew, attempt, failover,
  handle_real_gateway_generation,
}
use tok_hub.Gateway.Failover.Events.{Recorded, generation-Recorded}
use tok_hub.Gateway.Failover.Writes.{SilentUntilLast, generation-SilentUntilLast}
use tok_hub.Gateway.Failover.Reach.{IsRemote, IsReliable, IsAnswered, generation-IsAnswered}
use tok_hub.Policy.{
  PolicySettings, provider_policy_allows_with_lab, connection_mode_for_auth_method, connection_mode,
  check_terms, provider_mode_allowed, provider_policy_for, find_policy, provider_policies, allows,
  allows_mode, is_killed,
}
use tok_hub.Gateway.Candidates.{
  gateway_supports_model, is_eligible, candidate_auth_method, available_from,
  available_gateway_candidates,
}
use tok_hub.Gateway.Candidates.Order.{candidates-InOrder, candidate_is_supported}
use tok_hub.Gateway.Route.{
  gateway_runtime_eligible_status, is_routable, route_less, plan_gateway_route, InOrder, same_rank,
  plan-InOrder,
}
use tok_hub.Prelude.Sorting.{keep, sort_stable, insert_stable}
use mathlib.Core.List.{Perm}
use tok_hub.Prelude.{◌&&◌}
use tok_hub.Gateway.Circuit.{
  Circuits, opens, asks, Within, open_circuit, circuit_open, local_circuit_open, use_circuits,
  circuit_holds,
}

abbrev stale : GatewayUpstream
stale = record {
  channel_id = "stale";
  provider = "gemini";
  model = "m";
  auth_method = "oauth";
  status = "healthy";
  score = 90;
  success_rate = 99;
  latency_p95_ms = 800;
  cost_usd = 1;
  enabled = true;
}

abbrev working : GatewayUpstream
working = record {
  channel_id = "working";
  provider = "deepseek";
  model = "m";
  auth_method = "api_key";
  status = "healthy";
  score = 90;
  success_rate = 99;
  latency_p95_ms = 900;
  cost_usd = 1;
  enabled = true;
}

abbrev answer : UpstreamResult
answer = record { failed = false; body = "{}"; status_code = 200; error_type = ""; wrote = true }

abbrev rejection : UpstreamResult
rejection = record {
  failed = true;
  body = "";
  status_code = 401;
  error_type = "upstream_auth_error";
  wrote = false;
}

-- The channel `stale` is rejected with every material; the others answer.
abbrev backend : Backend String
backend = record {
  authorize = λ calls u. some (record { api_key = ""; material = some "token" });
  refresh = λ calls u. some (record { api_key = ""; material = some "renewed" });
  send = λ calls u auth. if u.channel_id == "stale" then rejection else answer;
}

stale_then_working :
    (handle_real_gateway_generation backend true true (stale ∷ working ∷ [])).opened ≡ "stale" ∷ []
unfolding handle_real_gateway_generation failover attempt may_renew managed_authorization_rejected
    is_official_client_upstream is_open_cli_browser_upstream equal_fold trim_space
stale_then_working = refl

generation-Recorded_example :
    Recorded
      (handle_real_gateway_generation backend true true (stale ∷ working ∷ [])).reply
      (handle_real_gateway_generation backend true true (stale ∷ working ∷ [])).events
generation-Recorded_example = generation-Recorded backend true true (stale ∷ working ∷ [])

generation-SilentUntilLast_example :
    SilentUntilLast (handle_real_gateway_generation backend true true (stale ∷ working ∷ [])).calls
generation-SilentUntilLast_example = generation-SilentUntilLast backend true (stale ∷ working ∷ [])

stale-IsRemote : IsRemote stale
unfolding is_official_client_upstream is_open_cli_browser_upstream equal_fold trim_space
stale-IsRemote = record { no_client = refl; no_browser = refl }

working-IsRemote : IsRemote working
unfolding is_official_client_upstream is_open_cli_browser_upstream equal_fold trim_space
working-IsRemote = record { no_client = refl; no_browser = refl }

working-IsReliable : IsReliable backend working
working-IsReliable = record {
  has_credential = λ calls. (record { api_key = ""; material = some "token" }, refl);
  answers = λ calls auth. refl;
}

generation-IsAnswered_example :
    IsAnswered (handle_real_gateway_generation backend true false (stale ∷ working ∷ [])).reply
generation-IsAnswered_example =
    generation-IsAnswered backend (stale ∷ []) working [] (stale-IsRemote, tt) working-IsRemote
      working-IsReliable

abbrev closed : Circuits
closed = λ channel. none

circuit_holds_example :
    (circuit_open none
      (use_circuits
        (open_circuit closed "a" (100 * second))
        (asks none "a" (110 * second) ∷ opens "b" (120 * second) ∷ []))
      "a"
      (125 * second)).0
    ≡ true
unfolding Within
circuit_holds_example =
    circuit_holds closed "a" (100 * second) (125 * second)
      (asks none "a" (110 * second) ∷ opens "b" (120 * second) ∷ []) (omega arith)
      ((omega arith, omega arith), ((omega arith, omega arith), tt))

abbrev no_settings : PolicySettings
no_settings = record { kill_switches = none; terms_digests = none }

-- The plan puts the faster upstream first by latency, and keeps the order where the rates are equal.
plans :
    (plan_gateway_route "latency" (working ∷ stale ∷ []) ≡ stale ∷ working ∷ [])
    × (plan_gateway_route "success" (working ∷ stale ∷ []) ≡ working ∷ stale ∷ [])
unfolding plan_gateway_route keep gateway_runtime_eligible_status trim_space sort_stable
    insert_stable route_less
plans = (refl, refl)

plan-InOrder_example :
    Perm
      (plan_gateway_route "latency" (working ∷ stale ∷ []))
      (keep is_routable (working ∷ stale ∷ []))
    × InOrder "latency" (plan_gateway_route "latency" (working ∷ stale ∷ []))
    × ((u : GatewayUpstream)
        → keep (same_rank "latency" u) (plan_gateway_route "latency" (working ∷ stale ∷ []))
          ≡ keep (λ v. is_routable v && same_rank "latency" u v) (working ∷ stale ∷ []))
plan-InOrder_example = plan-InOrder "latency" (working ∷ stale ∷ [])

candidates-InOrder_example :
    All
      (λ u. is_routable u ≡ true)
      (available_gateway_candidates no_settings
        (λ channel. none)
        "m"
        0
        "latency"
        (working ∷ stale ∷ [])
        closed).0
    × InOrder "latency"
        (available_gateway_candidates no_settings
          (λ channel. none)
          "m"
          0
          "latency"
          (working ∷ stale ∷ [])
          closed).0
candidates-InOrder_example =
    candidates-InOrder no_settings (λ channel. none) "m" 0 "latency" (working ∷ stale ∷ []) closed

abbrev chosen : List GatewayUpstream
chosen =
    (available_gateway_candidates no_settings (λ channel. none) " m" 0 "cost" (working ∷ [])
      closed).0

working_is_chosen : Occurs working chosen
unfolding available_gateway_candidates available_from plan_gateway_route keep
    gateway_runtime_eligible_status trim_space sort_stable insert_stable is_eligible
    candidate_auth_method to_lower provider_policy_allows_with_lab connection_mode_for_auth_method
    connection_mode circuit_open local_circuit_open check_terms provider_mode_allowed
    provider_policy_for find_policy provider_policies allows allows_mode is_killed
working_is_chosen = inl refl

named : trim_space " m" ≢ ""
unfolding trim_space
named e = absurd cc

named_model_is_supported : gateway_supports_model (working ∷ []) " m" ≡ true
named_model_is_supported =
    candidate_is_supported no_settings (λ channel. none) " m" 0 "cost" (working ∷ []) closed working
      named working_is_chosen
