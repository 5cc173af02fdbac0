-- ===== src/Gateway/Admission/Charges.antt =====
-- Requests and the quota that they use up.
use tok_hub.Prelude.{
  ℕ, ◌+◌, ◌≤◌, ◌<◌, String, ◌≡◌, refl, ap, subst, ◌∙◌, inl, inr, Bool, true, false, Option, none,
  some, List, [], ◌∷◌, ◌==◌, arith, if◌then◌else◌, Bool-cases, Option-cases, eq_iff, eq_refl,
}
use tok_hub.Clock.{Time, second}
use tok_hub.Gateway.Admission.{
  GatewayKeyRow, AuthenticatedGatewayKey, RequestHeaders, AdmissionState, Admission, admitted,
  turned_away, has_quota, plain_key, admit_by_quota, admit_by_rate, authenticate_gateway_request,
  allow_rate, gateway_rate_limit_policy, is_delegated_gateway,
}
use tok_hub.Gateway.Admission.Quota.{one_more, find_key, Counted, reserve-Counted}

-- An admitted request is counted for its key, and another one for none.
pub Charged : Admission → List GatewayKeyRow → List GatewayKeyRow → Type 0
Charged (admitted a) before after = Counted before after a.key_id
Charged (turned_away status code) before after = after ≡ before

-- The same, of the answer of a part of the handler.
abbrev ChargedBy : Admission × AdmissionState → AdmissionState → Type 0
ChargedBy answer s = Charged answer.0 s.keys answer.1.keys

admit_by_quota-Charged :
    (a : AuthenticatedGatewayKey) (s : AdmissionState) → ChargedBy (admit_by_quota a s) s
unfolding admit_by_quota Charged
admit_by_quota-Charged a s = elim (reserve-Counted s.keys a.key_id) [
  | inl (reserved, counted) ↦ rw (admit_by_quota, reserved) counted
  | inr (refused, same) ↦ rw (admit_by_quota, refused) same
]

admit_by_rate-Charged :
    (a : AuthenticatedGatewayKey) (cached : Option Bool) (s : AdmissionState) (now : Time)
    → ChargedBy (admit_by_rate a cached s now) s
unfolding admit_by_rate Charged
admit_by_rate-Charged a (some true) s now = admit_by_quota-Charged a s
admit_by_rate-Charged a (some false) s now = refl
admit_by_rate-Charged a none s now = elim (Bool-cases (is_delegated_gateway a.gateway)) [
  | inl delegated ↦ rw (admit_by_rate, delegated) refl
  | inr remote ↦
      elim (Bool-cases
        (allow_rate s.buckets (gateway_rate_limit_policy a).0 (gateway_rate_limit_policy a).1 second
          now).0) [
            | inl allowed ↦ rw (admit_by_rate, remote, allowed) (admit_by_quota-Charged a _)
            | inr over ↦ rw (admit_by_rate, remote, over) refl
          ]
]

module _ (authenticate : String → Option AuthenticatedGatewayKey)
    (allow_qps : String × ℕ → Option Bool) where
  -- An admitted request is counted once, on the row of its key, which had quota left, and changes no
  -- other row; a request that is turned away, for whatever reason, leaves every row as it was.
  pub authenticate-Charged :
      (r : RequestHeaders) (s : AdmissionState) (now : Time)
      → Charged
          (authenticate_gateway_request authenticate allow_qps r s now).0
          s.keys
          (authenticate_gateway_request authenticate allow_qps r s now).1.keys
  unfolding authenticate_gateway_request Charged
  authenticate-Charged r s now = elim (Bool-cases (plain_key r == "")) [
    | inl empty ↦ rw (authenticate_gateway_request, empty) refl
    | inr given ↦ elim (Option-cases (authenticate (plain_key r))) [
      | inl unknown ↦ rw (authenticate_gateway_request, given, unknown) refl
      | inr (a, known) ↦
          rw (authenticate_gateway_request, given, known)
            (admit_by_rate-Charged a (allow_qps (gateway_rate_limit_policy a)) s now)
    ]
  ]

-- A request as it comes in: its headers, its time, the key that it names and the counter in Redis.
pub record Arrival : Type 0 where
  pub headers : RequestHeaders
  pub at : Time
  pub key : String → Option AuthenticatedGatewayKey
  pub qps : String × ℕ → Option Bool

abbrev pub answer_to : AdmissionState → Arrival → Admission × AdmissionState
answer_to s r = authenticate_gateway_request r.key r.qps r.headers s r.at

abbrev count_if : String → Admission → ℕ
count_if id (admitted a) = if a.key_id == id then 1 else 0
count_if id (turned_away status code) = 0

-- How many of the requests are admitted under a key.
unfoldable pub count_admitted : String → List Arrival → AdmissionState → ℕ
count_admitted id [] s = 0
count_admitted id (r ∷ rs) s =
    let answer = answer_to s r in count_if id answer.0 + count_admitted id rs answer.1

not_same : (a b : String) → (a == b) ≡ false → (b == a) ≡ false
not_same a b h = elim (Bool-cases (b == a)) [
  | inr e ↦ e
  | inl e ↦ (let p = (eq_iff b a).0 e in let r = eq_refl a in absurd cc)
]

quota_left :
    (row : GatewayKeyRow)
    → 0 < row.quota_month
    → has_quota row ≡ true
    → row.requests_used < row.quota_month
unfolding has_quota
quota_left row positive h = ground arith

-- After one request, the row of a key is there with the same quota, the request counted, and within
-- the quota.
pub record Stays (id : String) (row : GatewayKeyRow) (answer : Admission × AdmissionState)
    : Type 0 where
  pub row' : GatewayKeyRow
  pub is_there : find_key answer.1.keys id ≡ some row'
  pub same_quota : row'.quota_month ≡ row.quota_month
  pub counted : row'.requests_used ≡ row.requests_used + count_if id answer.0
  pub within : row'.requests_used ≤ row'.quota_month

stays :
    (id : String) (row : GatewayKeyRow) (keys : List GatewayKeyRow) (answer : Admission)
    (after : AdmissionState)
    → find_key keys id ≡ some row
    → 0 < row.quota_month
    → row.requests_used ≤ row.quota_month
    → Charged answer keys after.keys
    → Stays id row (answer, after)
unfolding Charged
stays id row keys (turned_away status code) after there positive within same = record {
  row' = row;
  is_there = ap (λ ks. find_key ks id) same ∙ there;
  same_quota = refl;
  counted = omega arith;
  within = within;
}
stays id row keys (admitted a) after there positive within charged =
    elim (Bool-cases (a.key_id == id)) [
      | inl here ↦
          (let key : a.key_id ≡ id = (eq_iff a.key_id id).0 here in
            let was : find_key keys id ≡ some charged.row =
              subst (λ k. find_key keys k ≡ some charged.row) key charged.was in
            let same : charged.row ≡ row = cc in
            let used =
              quota_left row positive (subst (λ k. has_quota k ≡ true) same charged.had_quota) in
            record {
              row' = one_more row;
              is_there =
                  subst (λ k. find_key after.keys k ≡ some (one_more row)) key
                    (charged.now ∙ ap (λ k. some (one_more k)) same);
              same_quota = refl;
              counted = rw here refl;
              within = omega (arith, used);
            })
      | inr elsewhere ↦ record {
        row' = row;
        is_there = charged.others id (not_same a.key_id id elsewhere) ∙ there;
        same_quota = refl;
        counted = rw elsewhere (omega arith);
        within = within;
      }
    ]

-- Of a key with a positive quota whose row counts no more requests than the quota before: however many
-- requests come, under whatever keys, those that are admitted under the key are, with those that its
-- row counted before, no more than the quota.
pub admissions_within_quota :
    (rs : List Arrival) (id : String) (row : GatewayKeyRow) (s : AdmissionState)
    → find_key s.keys id ≡ some row
    → 0 < row.quota_month
    → row.requests_used ≤ row.quota_month
    → row.requests_used + count_admitted id rs s ≤ row.quota_month
unfolding count_admitted
admissions_within_quota [] id row s there positive within = omega arith
admissions_within_quota (r ∷ rs) id row s there positive within =
    let answer = answer_to s r in
    let after =
      stays id row s.keys answer.0 answer.1 there positive within
        (authenticate-Charged r.key r.qps r.headers s r.at) in
    let later =
      admissions_within_quota rs id after.row' answer.1 after.is_there
        (omega (arith, after.same_quota)) after.within in
    omega (arith, after.same_quota, after.counted, later)
