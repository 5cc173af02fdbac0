-- ===== src/Gateway/Failover/Reach.antt =====
-- The loop reaches an upstream that works.
use tok_hub.Prelude.{◌≡◌, String, true, false, some, List, [], ◌∷◌, ◌++◌, All}
use tok_hub.Gateway.{
  GatewayUpstream, Authorization, Backend, Call, Attempt, Outcome, Reply, answered,
  is_official_client_upstream, is_open_cli_browser_upstream, attempt, failover,
  handle_real_gateway_generation,
}
use tok_hub.Gateway.Failover.Attempts.{Attempted, once, twice, attempted}
use tok_hub.Gateway.Failover.{Round, client, browser, no_credential, serves, breaks, fails, round}

-- No local handler serves the upstream.
pub record IsRemote (u : GatewayUpstream) : Type 0 where
  pub no_client : is_official_client_upstream u ≡ false
  pub no_browser : is_open_cli_browser_upstream u ≡ false

-- The upstream has a credential and answers, whatever was called before.
pub record IsReliable {M : Type 0} (backend : Backend M) (u : GatewayUpstream) : Type 0 where
  pub has_credential :
      (calls : List Call) → (auth : Authorization M) × (backend.authorize calls u ≡ some auth)
  pub answers :
      (calls : List Call) (auth : Authorization M) → (backend.send calls u auth).failed ≡ false

-- The reply is an answer of an upstream, of a call that did not fail.
pub IsAnswered : Reply → Type 0
IsAnswered (answered u r) = r.failed ≡ false
IsAnswered _ = ⊥

module _ {M : Type 0} (backend : Backend M) where
  reliable_attempt :
      (calls : List Call) (u : GatewayUpstream) (auth : Authorization M)
      → IsReliable backend u
      → (attempt backend false calls u auth).result.failed ≡ false
  reliable_attempt calls u auth h = go _ (attempted backend false calls u auth)
    where
      go : (t : Attempt) → Attempted backend false calls u auth t → t.result.failed ≡ false
      go _ once = h.answers calls auth
      go _ (twice renewed a) = h.answers _ renewed

  failover-IsAnswered :
      (pre : List GatewayUpstream) (u : GatewayUpstream) (post : List GatewayUpstream)
      (last_error : String) (calls : List Call) (opened : List String)
      → All IsRemote pre
      → IsRemote u
      → IsReliable backend u
      → IsAnswered (failover backend false (pre ++ u ∷ post) last_error calls opened).reply
  unfolding IsAnswered
  failover-IsAnswered [] u post last_error calls opened hs h reliable =
      go _ (round backend false u post last_error calls opened)
    where
      go : (o : Outcome) → Round backend false u post last_error calls opened o → IsAnswered o.reply
      go _ (client a) = (let no = h.no_client in absurd cc)
      go _ (browser a) = (let no = h.no_browser in absurd cc)
      go _ (no_credential e) = (let (auth, has) = reliable.has_credential calls in absurd cc)
      go _ (serves auth e ok) = ok
      go _ (breaks auth bad w) = absurd cc
      go _ (fails auth e bad w) = (let ok = reliable_attempt calls u auth reliable in absurd cc)
  failover-IsAnswered (v ∷ pre) u post last_error calls opened (g, hs) h reliable =
      go (λ e c p. failover-IsAnswered pre u post e c p hs h reliable) _
        (round backend false v (pre ++ u ∷ post) last_error calls opened)
    where
      go :
          ((e : String) (c : List Call) (p : List String)
            → IsAnswered (failover backend false (pre ++ u ∷ post) e c p).reply)
          → (o : Outcome) → Round backend false v (pre ++ u ∷ post) last_error calls opened o
          → IsAnswered o.reply
      go later _ (client a) = (let no = g.no_client in absurd cc)
      go later _ (browser a) = (let no = g.no_browser in absurd cc)
      go later _ (no_credential e) = later _ _ _
      go later _ (serves auth e ok) = ok
      go later _ (breaks auth bad w) = absurd cc
      go later _ (fails auth e bad w) = later _ _ _

  -- Where a candidate is remote, has a credential and answers, and no candidate before it is served by
  -- a local handler, a request whose body is JSON and without streaming is answered by an upstream,
  -- however the candidates before it fail.
  pub generation-IsAnswered :
      (pre : List GatewayUpstream) (u : GatewayUpstream) (post : List GatewayUpstream)
      → All IsRemote pre
      → IsRemote u
      → IsReliable backend u
      → IsAnswered (handle_real_gateway_generation backend true false (pre ++ u ∷ post)).reply
  unfolding handle_real_gateway_generation
  generation-IsAnswered pre u post hs h reliable =
      failover-IsAnswered pre u post "upstream_failed" [] [] hs h reliable
