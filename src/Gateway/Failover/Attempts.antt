-- ===== src/Gateway/Failover/Attempts.antt =====
-- The cases of the calls of one upstream.
use tok_hub.Prelude.{
  ◌≡◌, inl, inr, Bool, true, List, [], ◌∷◌, ◌++◌, is_some, Bool-cases, Option-cases,
}
use tok_hub.Gateway.{
  GatewayUpstream, Authorization, Backend, Call, Attempt, UpstreamResult, call_of, may_renew,
  attempt,
}

module _ {M : Type 0} (backend : Backend M) (stream : Bool) (calls : List Call)
    (u : GatewayUpstream) (auth : Authorization M) where
  abbrev pub first : UpstreamResult
  first = backend.send calls u auth

  abbrev pub after_first : List Call
  after_first = calls ++ call_of u first ∷ []

  -- One call, or a second one after the first was rejected.
  pub data Attempted : Attempt → Type 0 where
    once : Attempted (record { calls = after_first; result = first })
    twice :
        (renewed : Authorization M)
        → may_renew stream first auth.material ≡ true
        → Attempted (record {
          calls = after_first ++ call_of u (backend.send after_first u renewed) ∷ [];
          result = backend.send after_first u renewed;
        })

  pub attempted : Attempted (attempt backend stream calls u auth)
  unfolding attempt
  attempted = elim (Bool-cases (may_renew stream first auth.material)) [
    | inr a ↦ rw (attempt, a) once
    | inl a ↦ elim (Option-cases (backend.refresh after_first u)) [
      | inl b ↦ rw (attempt, a, b) once
      | inr (renewed, b) ↦ elim (Bool-cases (is_some renewed.material)) [
        | inl c ↦ rw (attempt, a, b, c) (twice renewed a)
        | inr c ↦ rw (attempt, a, b, c) once
      ]
    ]
  ]
