-- ===== src/Gateway/Candidates.antt =====
-- The candidates of a request, availableGatewayCandidates of internal/api/gateway_handlers.go, from the
-- gateway's upstreams. The loop reads the clock for each upstream; one instant
-- stands for them. The route that is written to Redis at the end is left out.
pub mod Order
use tok_hub.Prelude.{
  String, ◌≡◌, ◌≢◌, refl, ◌⊎◌, inl, inr, Bool, true, false, not, ◌&&◌, Option, none, List, [], ◌∷◌,
  ◌==◌, arith, is_some, if◌then◌else◌, All, Bool-cases, Option-cases, eq_iff,
}
use tok_hub.Prelude.Text.{trim_space, to_lower}
use tok_hub.Clock.{Time}
use tok_hub.Policy.{
  PolicySettings, connection_mode_for_auth_method, provider_policy_allows_with_lab,
}
use tok_hub.Policy.Rules.{lab_modes_stay_in_the_lab}
use tok_hub.Gateway.{GatewayUpstream}
use tok_hub.Gateway.Route.{plan_gateway_route}
use tok_hub.Gateway.Circuit.{Circuits, circuit_open}

unfoldable pub candidate_auth_method : GatewayUpstream → String
candidate_auth_method u =
    let method = to_lower (trim_space u.auth_method) in if method == "" then "api_key" else method

-- The two first guards of the loop. `requested` is the trimmed name of the model.
unfoldable pub is_eligible : PolicySettings → String → GatewayUpstream → Time → Bool
is_eligible cfg requested u now =
    not
      (is_some (provider_policy_allows_with_lab cfg u.provider (candidate_auth_method u) false now))
    && not (not (requested == "") && not (trim_space u.model == requested))

-- The loop, with the circuits of the process; `cached` answers the question to Redis about a channel.
unfoldable pub available_from :
    PolicySettings
    → (String → Option Bool)
    → String
    → Time
    → List GatewayUpstream
    → Circuits
    → List GatewayUpstream × Circuits
available_from cfg cached requested now [] circuits = ([], circuits)
available_from cfg cached requested now (u ∷ us) circuits =
    let asked = circuit_open (cached u.channel_id) circuits u.channel_id now in
    let skipped = available_from cfg cached requested now us circuits in
    let after = available_from cfg cached requested now us asked.1 in
    if not (is_eligible cfg requested u now)
    then skipped
    else if asked.0
    then after
    else (u ∷ after.0, after.1)

unfoldable pub available_gateway_candidates :
    PolicySettings
    → (String → Option Bool)
    → String
    → Time
    → String
    → List GatewayUpstream
    → Circuits
    → List GatewayUpstream × Circuits
available_gateway_candidates cfg cached model now policy upstreams circuits =
    available_from cfg cached (trim_space model) now (plan_gateway_route policy upstreams) circuits

-- gatewaySupportsModel, its loop with the trimmed name of the model.
unfoldable pub has_model : String → List GatewayUpstream → Bool
has_model model [] = false
has_model model (u ∷ us) =
    let rest = has_model model us in if u.enabled && trim_space u.model == model then true else rest

unfoldable pub gateway_supports_model : List GatewayUpstream → String → Bool
gateway_supports_model upstreams model =
    if trim_space model == "" then false else has_model (trim_space model) upstreams

-- The policy admits the way the upstream connects, which is none of the laboratory, and the upstream
-- has the model that is asked for, where one is.
pub record IsCandidate (cfg : PolicySettings) (requested : String) (now : Time)
    (u : GatewayUpstream) : Type 0 where
  pub allowed :
      provider_policy_allows_with_lab cfg u.provider (candidate_auth_method u) false now ≡ none
  pub no_browser : connection_mode_for_auth_method (candidate_auth_method u) ≢ "browser_lab"
  pub no_web : connection_mode_for_auth_method (candidate_auth_method u) ≢ "consumer_web"
  pub serves_model : (requested ≡ "") ⊎ (trim_space u.model ≡ requested)

is_eligible-IsCandidate :
    (cfg : PolicySettings) (requested : String) (u : GatewayUpstream) (now : Time)
    → is_eligible cfg requested u now ≡ true
    → IsCandidate cfg requested now u
unfolding is_eligible
is_eligible-IsCandidate cfg requested u now h =
    let verdict =
      provider_policy_allows_with_lab cfg u.provider (candidate_auth_method u) false now in
    let not_refused : is_some verdict ≡ false = ground arith in
    record {
      allowed = elim (Option-cases verdict) [
        | inl e ↦ e
        | inr (e, refused) ↦ (let r : is_some verdict ≡ true = rw refused refl in absurd cc)
      ];
      no_browser = λ mode.
          (let refused =
              lab_modes_stay_in_the_lab cfg u.provider (candidate_auth_method u) now (inl mode) in
            absurd cc);
      no_web = λ mode.
          (let refused =
              lab_modes_stay_in_the_lab cfg u.provider (candidate_auth_method u) now (inr mode) in
            absurd cc);
      serves_model = elim (Bool-cases (requested == "")) [
        | inl e ↦ inl ((eq_iff requested "").0 e)
        | inr e ↦ inr ((eq_iff (trim_space u.model) requested).0 (ground arith))
      ];
    }

available_from-IsCandidate :
    (cfg : PolicySettings) (cached : String → Option Bool) (requested : String) (now : Time)
    (us : List GatewayUpstream) (circuits : Circuits)
    → All (IsCandidate cfg requested now) (available_from cfg cached requested now us circuits).0
unfolding available_from
available_from-IsCandidate cfg cached requested now [] circuits = tt
available_from-IsCandidate cfg cached requested now (u ∷ us) circuits =
    elim (Bool-cases (is_eligible cfg requested u now)) [
      | inr no_one ↦
          rw (available_from, no_one)
            (available_from-IsCandidate cfg cached requested now us circuits)
      | inl eligible ↦
          elim (Bool-cases (circuit_open (cached u.channel_id) circuits u.channel_id now).0) [
            | inl is_open ↦
                rw (available_from, eligible, is_open)
                  (available_from-IsCandidate cfg cached requested now us _)
            | inr closed ↦
                rw (available_from, eligible, closed)
                  (
                    is_eligible-IsCandidate cfg requested u now eligible,
                    available_from-IsCandidate cfg cached requested now us _,
                  )
          ]
    ]

pub available-IsCandidate :
    (cfg : PolicySettings) (cached : String → Option Bool) (model : String) (now : Time)
    (policy : String) (upstreams : List GatewayUpstream) (circuits : Circuits)
    → All
        (IsCandidate cfg (trim_space model) now)
        (available_gateway_candidates cfg cached model now policy upstreams circuits).0
unfolding available_gateway_candidates
available-IsCandidate cfg cached model now policy upstreams circuits =
    available_from-IsCandidate cfg cached (trim_space model) now
      (plan_gateway_route policy upstreams) circuits
