-- ===== src/Gateway/Admission.antt =====
-- The admission of a request to the gateway, authenticateGatewayRequest of
-- internal/api/gateway_handlers.go: the key, the rate of requests, and the monthly quota. The look-up of
-- a key and the counter in Redis are arguments, the latter `none` for an error; the two branches for the
-- kinds of error of Redis do the same and are one here. A limit of 0 stands for those below it too.
pub mod Quota
pub mod Charges
use Prim.Native.String.{◌++◌}
use tok_hub.Prelude.{
  ℕ, zero, suc, ◌+◌, ◌-◌, String, Bool, true, false, not, ◌&&◌, ◌||◌, Option, none, some, List, [],
  ◌∷◌, ◌==◌, eqb, ltb, leb, any, if◌then◌else◌,
}
use tok_hub.Prelude.Text.{trim_space, to_lower, has_prefix, drop_runes}
use tok_hub.Clock.{Time, Duration, second}
use tok_hub.Gateway.{GatewayUpstream, is_official_client_upstream, is_open_cli_browser_upstream}

pub record Gateway : Type 0 where
  pub id : String
  pub qps_limit : ℕ
  pub upstreams : List GatewayUpstream

-- What the handler reads of store.AuthenticatedGatewayKey.
pub record AuthenticatedGatewayKey : Type 0 where
  pub key_id : String
  pub key_qps_limit : ℕ
  pub gateway : Gateway

-- A row of gateway_keys, as far as the quota goes.
pub record GatewayKeyRow : Type 0 where
  pub id : String
  pub is_active : Bool
  pub is_deleted : Bool
  pub quota_month : ℕ
  pub requests_used : ℕ

unfoldable pub has_quota : GatewayKeyRow → Bool
has_quota k =
    k.is_active && not k.is_deleted && (eqb k.quota_month 0 || ltb k.requests_used k.quota_month)

-- ReserveGatewayKeyRequest: the update, and whether it met a row. The id is the primary key, so the
-- update meets one row at most.
unfoldable pub reserve_gateway_key_request : List GatewayKeyRow → String → Bool × List GatewayKeyRow
reserve_gateway_key_request [] id = (false, [])
reserve_gateway_key_request (k ∷ ks) id =
    let rest = reserve_gateway_key_request ks id in
    if k.id == id
    then (if has_quota k
        then (true, record k { requests_used = k.requests_used + 1 } ∷ ks)
        else (false, k ∷ ks))
    else (rest.0, k ∷ rest.1)

pub record RateBucket : Type 0 where
  pub window : Time
  pub count : ℕ

abbrev pub Buckets : Type 0
Buckets = String → RateBucket

-- The bucket that allowRate writes back.
unfoldable pub next_bucket : RateBucket → Duration → Time → RateBucket
next_bucket bucket window now =
    let b : RateBucket =
      if ltb window (now - bucket.window) then record { window = now; count = 0 } else bucket in
    record b { count = b.count + 1 }

unfoldable pub allow_rate : Buckets → String → ℕ → Duration → Time → Bool × Buckets
allow_rate buckets key limit window now =
    let bucket = next_bucket (buckets key) window now in
    (leb bucket.count limit, λ k. if k == key then bucket else buckets k)

pub record ExperimentalGatewayPolicy : Type 0 where
  pub qps : ℕ
  pub concurrency : ℕ

-- The loop of experimentalGatewayLimits, with its two variables.
unfoldable pub experimental_limits_from :
    ExperimentalGatewayPolicy → Bool → List GatewayUpstream → ExperimentalGatewayPolicy × Bool
experimental_limits_from policy experimental [] = (policy, experimental)
experimental_limits_from policy experimental (u ∷ us) =
    let method = to_lower (trim_space u.auth_method) in
    let single =
      method == "deepseek_web_token"
      || method == "opencli_browser"
      || method == "official_client" in
    experimental_limits_from (if single then record policy { concurrency = 1 } else policy)
      (if method == "codex_oauth" || single then true else experimental) us

unfoldable pub experimental_gateway_limits : Gateway → Option ExperimentalGatewayPolicy
unfolding experimental_limits_from
experimental_gateway_limits g =
    let found = experimental_limits_from (record { qps = 1; concurrency = 2 }) false g.upstreams in
    if found.1 then some found.0 else none

unfoldable pub gateway_rate_limit_policy : AuthenticatedGatewayKey → String × ℕ
gateway_rate_limit_policy a = elim (experimental_gateway_limits a.gateway) [
  | some limits ↦ ("experimental:" ++ a.gateway.id, limits.qps)
  | none ↦ (a.key_id, if eqb a.key_qps_limit 0 then a.gateway.qps_limit else a.key_qps_limit)
]

-- gatewayUsesOpenCLIBrowser and gatewayUsesOfficialClient
abbrev pub is_delegated_gateway : Gateway → Bool
is_delegated_gateway g =
    any is_open_cli_browser_upstream g.upstreams || any is_official_client_upstream g.upstreams

-- The headers that the handler reads.
pub record RequestHeaders : Type 0 where
  pub authorization : String
  pub x_api_key : String

-- The key of the request; "bearer " is of seven letters of ASCII, in either case.
unfoldable pub plain_key : RequestHeaders → String
plain_key r =
    let header = trim_space r.authorization in
    let bearer =
      if has_prefix (to_lower header) "bearer " then trim_space (drop_runes header 7) else "" in
    if bearer == "" then trim_space r.x_api_key else bearer

pub record AdmissionState : Type 0 where
  pub buckets : Buckets
  pub keys : List GatewayKeyRow

pub data Admission : Type 0 where
  admitted : AuthenticatedGatewayKey → Admission
  turned_away : ℕ → String → Admission

-- The end of the handler, on the quota of the key.
unfoldable pub admit_by_quota :
    AuthenticatedGatewayKey → AdmissionState → Admission × AdmissionState
admit_by_quota a s =
    let reserved = reserve_gateway_key_request s.keys a.key_id in
    (
      if reserved.0 then admitted a else turned_away 429 "gateway_quota_exceeded",
      record s { keys = reserved.1 },
    )

-- The part on the rate; `cached` answers AllowQPS.
unfoldable pub admit_by_rate :
    AuthenticatedGatewayKey → Option Bool → AdmissionState → Time → Admission × AdmissionState
admit_by_rate a (some true) s now = admit_by_quota a s
admit_by_rate a (some false) s now = (turned_away 429 "gateway_rate_limited", s)
admit_by_rate a none s now =
    let policy = gateway_rate_limit_policy a in
    let rated = allow_rate s.buckets policy.0 policy.1 second now in
    let counted = record s { buckets = rated.1 } in
    if is_delegated_gateway a.gateway
    then (turned_away 503 "local_risk_guard_unavailable", s)
    else if rated.0
    then admit_by_quota a counted
    else (turned_away 429 "gateway_rate_limited", counted)

unfoldable pub authenticate_gateway_request :
    (String → Option AuthenticatedGatewayKey)
    → (String × ℕ → Option Bool)
    → RequestHeaders
    → AdmissionState
    → Time
    → Admission × AdmissionState
authenticate_gateway_request authenticate allow_qps r s now =
    let key = plain_key r in
    if key == "" then (turned_away 401 "gateway_unauthorized", s) else elim (authenticate key) [
      | none ↦ (turned_away 401 "gateway_unauthorized", s)
      | some a ↦ admit_by_rate a (allow_qps (gateway_rate_limit_policy a)) s now
    ]
