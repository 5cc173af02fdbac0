-- ===== src/Gateway/Failover/Writes.antt =====
-- A stream comes from one call: the loop goes on only while nothing was written.
use tok_hub.Prelude.{String, ◌≡◌, Bool, true, false, Option, List, [], ◌∷◌, ◌++◌, arith, All}
use tok_hub.Gateway.{
  GatewayUpstream, Authorization, Backend, Call, Attempt, UpstreamResult, Outcome, call_of,
  may_renew, attempt, failover, handle_real_gateway_generation,
}
use tok_hub.Gateway.Failover.Attempts.{Attempted, once, twice, first, attempted}
use tok_hub.Gateway.Failover.{Round, client, browser, no_credential, serves, breaks, fails, round}

abbrev Silent : Call → Type 0
Silent c = c.result.wrote ≡ false

-- No call but the last has written to the client.
pub SilentUntilLast : List Call → Type 0
SilentUntilLast [] = Unit
SilentUntilLast (c ∷ []) = Unit
SilentUntilLast (c ∷ d ∷ rest) = (c.result.wrote ≡ false) × SilentUntilLast (d ∷ rest)

append-SilentUntilLast :
    (calls : List Call) (c : Call) → All Silent calls → SilentUntilLast (calls ++ c ∷ [])
unfolding SilentUntilLast
append-SilentUntilLast [] c h = tt
append-SilentUntilLast (a ∷ []) c (h, hs) = (h, tt)
append-SilentUntilLast (a ∷ b ∷ rest) c (h, hs) = (h, append-SilentUntilLast (b ∷ rest) c hs)

All-SilentUntilLast : (calls : List Call) → All Silent calls → SilentUntilLast calls
unfolding SilentUntilLast
All-SilentUntilLast [] h = tt
All-SilentUntilLast (a ∷ []) h = tt
All-SilentUntilLast (a ∷ b ∷ rest) (h, hs) = (h, All-SilentUntilLast (b ∷ rest) hs)

append-Silent :
    (calls : List Call) (c : Call) → All Silent calls → Silent c → All Silent (calls ++ c ∷ [])
append-Silent [] c h s = (s, tt)
append-Silent (a ∷ rest) c (h, hs) s = (h, append-Silent rest c hs s)

may_renew-silent :
    {M : Type 0} (result : UpstreamResult) (material : Option M)
    → may_renew true result material ≡ true
    → result.wrote ≡ false
unfolding may_renew
may_renew-silent result material h = ground arith

module _ {M : Type 0} (backend : Backend M) where
  -- What an attempt on a stream leaves.
  abbrev Left : Attempt → Type 0
  Left t = SilentUntilLast t.calls × (t.result.wrote ≡ false → All Silent t.calls)

  attempt-Left :
      (calls : List Call) (u : GatewayUpstream) (auth : Authorization M)
      → All Silent calls
      → Left (attempt backend true calls u auth)
  attempt-Left calls u auth h = go _ (attempted backend true calls u auth)
    where
      go : (t : Attempt) → Attempted backend true calls u auth t → Left t
      go _ once = (append-SilentUntilLast calls _ h, append-Silent calls _ h)
      go _ (twice renewed a) =
          (let h' =
              append-Silent calls (call_of u (first backend true calls u auth)) h
                (may_renew-silent (first backend true calls u auth) auth.material a) in
            (append-SilentUntilLast _ _ h', append-Silent _ _ h'))

  failover-SilentUntilLast :
      (us : List GatewayUpstream) (last_error : String) (calls : List Call) (opened : List String)
      → All Silent calls
      → SilentUntilLast (failover backend true us last_error calls opened).calls
  failover-SilentUntilLast [] last_error calls opened h =
      (unfold failover in All-SilentUntilLast calls h)
  failover-SilentUntilLast (u ∷ us) last_error calls opened h =
      go (failover-SilentUntilLast us) _ (round backend true u us last_error calls opened)
    where
      go :
          ((e : String) (c : List Call) (p : List String)
            → All Silent c
            → SilentUntilLast (failover backend true us e c p).calls)
          → (o : Outcome) → Round backend true u us last_error calls opened o
          → SilentUntilLast o.calls
      go later _ (client a) = All-SilentUntilLast calls h
      go later _ (browser a) = All-SilentUntilLast calls h
      go later _ (no_credential e) = later _ calls opened h
      go later _ (serves auth e ok) = (attempt-Left calls u auth h).0
      go later _ (breaks auth bad w) = (attempt-Left calls u auth h).0
      go later _ (fails auth e bad w) = later _ _ _ ((attempt-Left calls u auth h).1 w)

  -- Once a call has written to the client of a stream, no further call is made for the request: of the
  -- calls of a request, only the last has written.
  pub generation-SilentUntilLast :
      (raw_is_json : Bool) (candidates : List GatewayUpstream)
      → SilentUntilLast (handle_real_gateway_generation backend raw_is_json true candidates).calls
  unfolding handle_real_gateway_generation SilentUntilLast
  generation-SilentUntilLast true candidates =
      failover-SilentUntilLast candidates "upstream_failed" [] [] tt
  generation-SilentUntilLast false candidates = tt
