-- ===== src/Gateway/Candidates/Order.antt =====
-- The candidates of a request against the plan of the route.
use tok_hub.Prelude.{
  String, ◌≡◌, ◌≢◌, inl, inr, Bool, true, Option, List, [], ◌∷◌, ◌==◌, arith, Bool-cases, All,
  All-Occurs, Occurs, eq_iff,
}
use tok_hub.Prelude.Sorting.{keep, keep-All, All-keep, sort-All, IsOrdered}
use tok_hub.Prelude.Text.{trim_space}
use tok_hub.Clock.{Time}
use tok_hub.Policy.{PolicySettings}
use tok_hub.Gateway.{GatewayUpstream}
use tok_hub.Gateway.Circuit.{Circuits, circuit_open}
use tok_hub.Gateway.Route.{
  is_routable, route_less, plan_gateway_route, InOrder, ordered-InOrder, plan-IsOrdered,
}
use tok_hub.Gateway.Candidates.{
  is_eligible, available_from, available_gateway_candidates, has_model, gateway_supports_model,
  available-IsCandidate,
}

module _ (cfg : PolicySettings) (cached : String → Option Bool) (requested : String)
    (now : Time) where
  -- The three ways of a round of the loop.
  data Round (u : GatewayUpstream) (us : List GatewayUpstream) : List GatewayUpstream → Type 0 where
    passes : (c : Circuits) → Round u us (available_from cfg cached requested now us c).0
    takes : (c : Circuits) → Round u us (u ∷ (available_from cfg cached requested now us c).0)

  round :
      (u : GatewayUpstream) (us : List GatewayUpstream) (circuits : Circuits)
      → Round u us (available_from cfg cached requested now (u ∷ us) circuits).0
  unfolding available_from
  round u us circuits = elim (Bool-cases (is_eligible cfg requested u now)) [
    | inr no_one ↦ rw (available_from, no_one) (passes circuits)
    | inl eligible ↦
        elim (Bool-cases (circuit_open (cached u.channel_id) circuits u.channel_id now).0) [
          | inl is_open ↦ rw (available_from, eligible, is_open) (passes _)
          | inr closed ↦ rw (available_from, eligible, closed) (takes _)
        ]
  ]

  available-All :
      (P : GatewayUpstream → Type 0) (us : List GatewayUpstream) (circuits : Circuits)
      → All P us
      → All P (available_from cfg cached requested now us circuits).0
  available-All P [] circuits h = unfold available_from in tt
  available-All P (u ∷ us) circuits (h, hs) =
      go (λ c. available-All P us c hs) _ (round u us circuits)
    where
      go :
          ((c : Circuits) → All P (available_from cfg cached requested now us c).0)
          → (l : List GatewayUpstream) → Round u us l
          → All P l
      go rest _ (passes c) = rest c
      go rest _ (takes c) = (h, rest c)

  available-IsOrdered :
      (less : GatewayUpstream → GatewayUpstream → Bool) (us : List GatewayUpstream)
      (circuits : Circuits)
      → IsOrdered less us
      → IsOrdered less (available_from cfg cached requested now us circuits).0
  unfolding IsOrdered
  available-IsOrdered less [] circuits h = unfold available_from in tt
  available-IsOrdered less (u ∷ us) circuits (h, hs) =
      go (λ c. available-IsOrdered less us c hs) _ (round u us circuits)
    where
      go :
          ((c : Circuits) → IsOrdered less (available_from cfg cached requested now us c).0)
          → (l : List GatewayUpstream) → Round u us l
          → IsOrdered less l
      go rest _ (passes c) = rest c
      go rest _ (takes c) = (available-All _ us c h, rest c)

plan-All :
    (P : GatewayUpstream → Type 0) (policy : String) (us : List GatewayUpstream)
    → All P (keep is_routable us)
    → All P (plan_gateway_route policy us)
unfolding plan_gateway_route
plan-All P policy us h = sort-All (route_less policy) P (keep is_routable us) h

-- Every candidate of a request is enabled and healthy or degraded. Under the policy success no candidate
-- is tried before one with a higher rate of success, under cost none before a cheaper one, under any other
-- policy none before one with a lower latency, and of two that are equal in it none before one with a
-- higher score.
pub candidates-InOrder :
    (cfg : PolicySettings) (cached : String → Option Bool) (model : String) (now : Time)
    (policy : String) (upstreams : List GatewayUpstream) (circuits : Circuits)
    → All
        (λ u. is_routable u ≡ true)
        (available_gateway_candidates cfg cached model now policy upstreams circuits).0
      × InOrder policy
          (available_gateway_candidates cfg cached model now policy upstreams circuits).0
unfolding available_gateway_candidates
candidates-InOrder cfg cached model now policy upstreams circuits =
    let plan = plan_gateway_route policy upstreams in
    (
      available-All cfg cached (trim_space model) now _ plan circuits
          (plan-All _ policy upstreams (keep-All is_routable upstreams)),
      ordered-InOrder policy _ (
          available-IsOrdered cfg cached (trim_space model) now (route_less policy) plan circuits
            (plan-IsOrdered policy upstreams)),
    )

-- An enabled upstream of a model makes the gateway support it.
abbrev Supports : String → List GatewayUpstream → GatewayUpstream → Type 0
Supports model upstreams u =
    u.enabled ≡ true → (trim_space u.model == model) ≡ true → has_model model upstreams ≡ true

further-Supports :
    (model : String) (v : GatewayUpstream) (upstreams us : List GatewayUpstream)
    → All (Supports model upstreams) us
    → All (Supports model (v ∷ upstreams)) us
unfolding has_model
further-Supports model v upstreams [] h = tt
further-Supports model v upstreams (u ∷ us) (h, hs) =
    ((λ on same. (let rest = h on same in ground arith)), further-Supports model v upstreams us hs)

own-Supports : (model : String) (us : List GatewayUpstream) → All (Supports model us) us
unfolding has_model
own-Supports model [] = tt
own-Supports model (u ∷ us) =
    ((λ on same. ground arith), further-Supports model u us us (own-Supports model us))

-- Where a request that names a model has a candidate, the gateway supports the model.
pub candidate_is_supported :
    (cfg : PolicySettings) (cached : String → Option Bool) (model : String) (now : Time)
    (policy : String) (upstreams : List GatewayUpstream) (circuits : Circuits) (u : GatewayUpstream)
    → trim_space model ≢ ""
    → Occurs u (available_gateway_candidates cfg cached model now policy upstreams circuits).0
    → gateway_supports_model upstreams model ≡ true
unfolding gateway_supports_model available_gateway_candidates
candidate_is_supported cfg cached model now policy upstreams circuits u named m =
    let requested = trim_space model in
    let plan = plan_gateway_route policy upstreams in
    let on =
      All-Occurs _ _ u (candidates-InOrder cfg cached model now policy upstreams circuits).0 m in
    let c =
      All-Occurs _ _ u (available-IsCandidate cfg cached model now policy upstreams circuits) m in
    let s =
      All-Occurs _ _ u
        (available-All cfg cached requested now (Supports requested upstreams) plan circuits (
          plan-All _ policy upstreams
            (All-keep _ is_routable upstreams (own-Supports requested upstreams))))
        m in
    elim (Bool-cases (requested == "")) [
      | inl blank ↦ absurd (named ((eq_iff requested "").0 blank))
      | inr given ↦ elim c.serves_model [
        | inl blank ↦ absurd (named blank)
        | inr same ↦
            (let r = s (ground arith) ((eq_iff (trim_space u.model) requested).1 same) in
              rw (given) r)
      ]
    ]
