-- ===== src/Gateway/Route.antt =====
-- The order in which a gateway tries its upstreams, PlanGatewayRoute of internal/store/gateway.go.
use tok_hub.Prelude.{
  String, ◌≡◌, ◌≢◌, ◌≤◌, ◌<◌, ◌⊎◌, sym, ◌∙◌, inl, inr, Bool, false, ◌&&◌, ◌||◌, List, [], ◌∷◌, ◌==◌,
  arith, eqb, ltb, eq_iff, if◌then◌else◌, All, Bool-cases,
}
use mathlib.Core.List.{Perm}
use tok_hub.Prelude.Sorting.{
  keep, sort_stable, IsWeakOrder, IsOrdered, is_tied, sort-IsOrdered, sort-Perm, sort-tied,
  keep-keep, keep-ext,
}
use tok_hub.Prelude.Text.{trim_space}
use tok_hub.Gateway.{GatewayUpstream}

unfoldable pub gateway_runtime_eligible_status : String → Bool
gateway_runtime_eligible_status status =
    let s = trim_space status in s == "healthy" || s == "degraded"

abbrev pub is_routable : GatewayUpstream → Bool
is_routable u = u.enabled && gateway_runtime_eligible_status u.status

-- The test that the sort is given, by the policy of the gateway.
unfoldable pub route_less : String → GatewayUpstream → GatewayUpstream → Bool
route_less policy a b =
    if policy == "success"
    then (if eqb a.success_rate b.success_rate
        then ltb b.score a.score
        else ltb b.success_rate a.success_rate)
    else if policy == "cost"
    then (if eqb a.cost_usd b.cost_usd then ltb b.score a.score else ltb a.cost_usd b.cost_usd)
    else if eqb a.latency_p95_ms b.latency_p95_ms
    then ltb b.score a.score
    else ltb a.latency_p95_ms b.latency_p95_ms

-- PlanGatewayRoute
unfoldable pub plan_gateway_route : String → List GatewayUpstream → List GatewayUpstream
plan_gateway_route policy upstreams = sort_stable (route_less policy) (keep is_routable upstreams)

pub route-IsWeakOrder : (policy : String) → IsWeakOrder (route_less policy)
unfolding route_less
route-IsWeakOrder policy = record {
  asym = λ a b h. elim (Bool-cases (policy == "success")) [
    | inl e ↦ ground arith
    | inr e ↦ elim (Bool-cases (policy == "cost")) [ inl f ↦ ground arith | inr f ↦ ground arith ]
  ];
  trans = λ a b c h k. elim (Bool-cases (policy == "success")) [
    | inl e ↦ ground arith
    | inr e ↦ elim (Bool-cases (policy == "cost")) [ inl f ↦ ground arith | inr f ↦ ground arith ]
  ];
}

-- Of two upstreams the first may stand before the second: its number is the better one, or they are
-- equal and its score is no lower.
abbrev FirstBy : (better : Type 0) (equal : Type 0) → GatewayUpstream → GatewayUpstream → Type 0
FirstBy better equal a b = better ⊎ (equal × (b.score ≤ a.score))

-- The policy `success` prefers a higher rate of success, `cost` lower costs, and every other policy a
-- lower latency.
abbrev pub Preferred : String → GatewayUpstream → GatewayUpstream → Type 0
Preferred policy a b =
    ((policy ≡ "success")
      × FirstBy (b.success_rate < a.success_rate) (a.success_rate ≡ b.success_rate) a b)
    ⊎ ((policy ≡ "cost") × FirstBy (a.cost_usd < b.cost_usd) (a.cost_usd ≡ b.cost_usd) a b)
    ⊎ ((policy ≢ "success")
        × (policy ≢ "cost")
        × FirstBy (a.latency_p95_ms < b.latency_p95_ms) (a.latency_p95_ms ≡ b.latency_p95_ms) a b)

-- Each upstream is preferred to those behind it.
pub InOrder : String → List GatewayUpstream → Type 0
InOrder policy [] = Unit
InOrder policy (a ∷ l) = All (Preferred policy a) l × InOrder policy l

-- The policy does not tell two upstreams apart.
unfoldable pub same_rank : String → GatewayUpstream → GatewayUpstream → Bool
same_rank policy a b =
    eqb a.score b.score
    && (if policy == "success"
        then eqb a.success_rate b.success_rate
        else if policy == "cost"
        then eqb a.cost_usd b.cost_usd
        else eqb a.latency_p95_ms b.latency_p95_ms)

less-Preferred :
    (policy : String) (a b : GatewayUpstream) → route_less policy b a ≡ false → Preferred policy a b
unfolding route_less
less-Preferred policy a b h = elim (Bool-cases (policy == "success")) [
  | inl e ↦ inl ((eq_iff policy "success").0 e, ground arith)
  | inr e ↦ elim (Bool-cases (policy == "cost")) [
    | inl f ↦ inr (inl ((eq_iff policy "cost").0 f, ground arith))
    | inr f ↦ inr (
        inr (
          (λ p. (let back = (eq_iff policy "success").1 p in absurd cc)),
          (λ p. (let back = (eq_iff policy "cost").1 p in absurd cc)),
          ground arith,
        ))
  ]
]

All-Preferred :
    (policy : String) (a : GatewayUpstream) (l : List GatewayUpstream)
    → All (λ b. route_less policy b a ≡ false) l
    → All (Preferred policy a) l
All-Preferred policy a [] h = tt
All-Preferred policy a (b ∷ l) (h, hs) = (less-Preferred policy a b h, All-Preferred policy a l hs)

pub ordered-InOrder :
    (policy : String) (l : List GatewayUpstream)
    → IsOrdered (route_less policy) l
    → InOrder policy l
unfolding IsOrdered InOrder
ordered-InOrder policy [] h = tt
ordered-InOrder policy (a ∷ l) (h, hs) = (All-Preferred policy a l h, ordered-InOrder policy l hs)

tied_same_rank :
    (policy : String) (a b : GatewayUpstream)
    → is_tied (route_less policy) a b ≡ same_rank policy a b
unfolding route_less same_rank
tied_same_rank policy a b = elim (Bool-cases (policy == "success")) [
  | inl e ↦ rw e (ground arith)
  | inr e ↦ elim (Bool-cases (policy == "cost")) [
    | inl f ↦ rw (e, f) (ground arith)
    | inr f ↦ rw (e, f) (ground arith)
  ]
]

pub plan-IsOrdered :
    (policy : String) (upstreams : List GatewayUpstream)
    → IsOrdered (route_less policy) (plan_gateway_route policy upstreams)
unfolding plan_gateway_route
plan-IsOrdered policy upstreams =
    sort-IsOrdered (route_less policy) (route-IsWeakOrder policy) (keep is_routable upstreams)

-- The plan has the enabled upstreams whose status is healthy or degraded and no others. Under the policy
-- success none comes before one with a higher rate of success, under cost none before a cheaper one, under
-- any other policy none before one with a lower latency, and of two that are equal in it none before one
-- with a higher score. Those that are equal in the score too stand in the order in which they stood.
pub plan-InOrder :
    (policy : String) (upstreams : List GatewayUpstream)
    → Perm (plan_gateway_route policy upstreams) (keep is_routable upstreams)
      × InOrder policy (plan_gateway_route policy upstreams)
      × ((u : GatewayUpstream)
          → keep (same_rank policy u) (plan_gateway_route policy upstreams)
            ≡ keep (λ v. is_routable v && same_rank policy u v) upstreams)
unfolding plan_gateway_route
plan-InOrder policy upstreams =
    let l = keep is_routable upstreams in
    let less = route_less policy in
    (
      sort-Perm less l,
      ordered-InOrder policy _ (plan-IsOrdered policy upstreams),
      λ u.
          keep-ext _ _ (sort_stable less l) (λ v. sym (tied_same_rank policy u v))
          ∙ sort-tied less (route-IsWeakOrder policy) u l
          ∙ keep-ext _ _ l (tied_same_rank policy u)
          ∙ keep-keep is_routable _ upstreams,
    )
