-- ===== src/Gateway/Failover/Events.antt =====
-- What the loop records of a request, and how often it calls the upstreams.
use tok_hub.Prelude.{
  ◌+◌, ◌*◌, ◌≤◌, String, ◌≡◌, refl, Bool, true, false, List, [], ◌∷◌, arith, length, length-append,
}
use tok_hub.Gateway.{
  GatewayUpstream, Authorization, Backend, Call, Attempt, Outcome, Reply, GatewayEvent, answered,
  by_client, by_browser, broken_off, refused, success_event, failure_event, success_status, attempt,
  call_of, failover, handle_real_gateway_generation,
}
use tok_hub.Gateway.Failover.Attempts.{Attempted, once, twice, first, after_first, attempted}
use tok_hub.Gateway.Failover.{Round, client, browser, no_credential, serves, breaks, fails, round}

-- The events that the loop records by its reply: none where it hands over to a local handler, and one
-- in any other case.
pub Recorded : Reply → List GatewayEvent → Type 0
Recorded (answered u r) events =
    events ≡ success_event u.channel_id (success_status r.status_code) ∷ []
Recorded (by_client u) events = events ≡ []
Recorded (by_browser u) events = events ≡ []
Recorded (broken_off u) events =
    (error_type : String) × (events ≡ failure_event u.channel_id 502 error_type ∷ [])
Recorded (refused status code) events =
    (error_type : String) × (events ≡ failure_event "" status error_type ∷ [])

module _ {M : Type 0} (backend : Backend M) (stream : Bool) where
  failover-Recorded :
      (us : List GatewayUpstream) (last_error : String) (calls : List Call) (opened : List String)
      → Recorded
          (failover backend stream us last_error calls opened).reply
          (failover backend stream us last_error calls opened).events
  unfolding Recorded
  failover-Recorded [] last_error calls opened = (unfold failover in (last_error, refl))
  failover-Recorded (u ∷ us) last_error calls opened =
      go (failover-Recorded us) _ (round backend stream u us last_error calls opened)
    where
      go :
          ((e : String) (c : List Call) (p : List String)
            → Recorded
                (failover backend stream us e c p).reply
                (failover backend stream us e c p).events)
          → (o : Outcome) → Round backend stream u us last_error calls opened o
          → Recorded o.reply o.events
      go later _ (client a) = refl
      go later _ (browser a) = refl
      go later _ (no_credential e) = later _ calls opened
      go later _ (serves auth e ok) = refl
      go later _ (breaks auth bad w) = (_, refl)
      go later _ (fails auth e bad w) = later _ _ _

  attempt-bound :
      (calls : List Call) (u : GatewayUpstream) (auth : Authorization M)
      → length (attempt backend stream calls u auth).calls ≤ length calls + 2
  attempt-bound calls u auth = go _ (attempted backend stream calls u auth)
    where
      go :
          (t : Attempt)
          → Attempted backend stream calls u auth t
          → length t.calls ≤ length calls + 2
      go _ once =
          omega (arith, length-append calls (call_of u (first backend stream calls u auth) ∷ []))
      go _ (twice renewed a) = omega (
        arith,
        length-append calls (call_of u (first backend stream calls u auth) ∷ []),
        length-append (after_first backend stream calls u auth)
            (call_of u (backend.send (after_first backend stream calls u auth) u renewed) ∷ []),
      )

  failover-bound :
      (us : List GatewayUpstream) (last_error : String) (calls : List Call) (opened : List String)
      → length (failover backend stream us last_error calls opened).calls
        ≤ length calls + 2 * length us
  failover-bound [] last_error calls opened = (unfold failover in omega arith)
  failover-bound (u ∷ us) last_error calls opened =
      go (failover-bound us) _ (round backend stream u us last_error calls opened)
    where
      go :
          ((e : String) (c : List Call) (p : List String)
            → length (failover backend stream us e c p).calls ≤ length c + 2 * length us)
          → (o : Outcome) → Round backend stream u us last_error calls opened o
          → length o.calls ≤ length calls + 2 * length (u ∷ us)
      go later _ (client a) = omega arith
      go later _ (browser a) = omega arith
      go later _ (no_credential e) = omega (arith, later _ calls opened)
      go later _ (serves auth e ok) = omega (arith, attempt-bound calls u auth)
      go later _ (breaks auth bad w) = omega (arith, attempt-bound calls u auth)
      go later _ (fails auth e bad w) = omega (arith, attempt-bound calls u auth, later _ _ _)

  -- This handler records one event of a request: of a success under the channel that answered, of a
  -- stream that broke off under its channel, and of a request that was refused under no channel. Where
  -- a local handler takes the request over, this one records none.
  pub generation-Recorded :
      (raw_is_json : Bool) (candidates : List GatewayUpstream)
      → Recorded
          (handle_real_gateway_generation backend raw_is_json stream candidates).reply
          (handle_real_gateway_generation backend raw_is_json stream candidates).events
  unfolding handle_real_gateway_generation Recorded
  generation-Recorded true candidates = failover-Recorded candidates "upstream_failed" [] []
  generation-Recorded false candidates = ("invalid_json", refl)

  -- A request calls the upstreams at most twice for each candidate.
  pub calls_per_candidate :
      (raw_is_json : Bool) (candidates : List GatewayUpstream)
      → length (handle_real_gateway_generation backend raw_is_json stream candidates).calls
        ≤ 2 * length candidates
  unfolding handle_real_gateway_generation
  calls_per_candidate true candidates =
      omega (arith, failover-bound candidates "upstream_failed" [] [])
  calls_per_candidate false candidates = omega arith
