-- ===== src/Tests/AdmissionRuns.antt =====
-- Requests that use up the quota of a key.
use tok_hub.Prelude.{◌+◌, ◌*◌, ◌≤◌, ◌≡◌, refl, true, false, some, [], ◌∷◌, arith}
use tok_hub.Prelude.Text.{trim_space, to_lower, has_prefix, drop_runes}
use tok_hub.Clock.{second}
use tok_hub.Gateway.Admission.{
  AuthenticatedGatewayKey, GatewayKeyRow, RequestHeaders, AdmissionState, plain_key, has_quota,
  reserve_gateway_key_request, admit_by_quota, admit_by_rate, authenticate_gateway_request,
}
use tok_hub.Gateway.Admission.Quota.{find_key}
use tok_hub.Gateway.Admission.Charges.{
  Charged, Arrival, count_admitted, authenticate-Charged, admissions_within_quota,
}

abbrev key_row : GatewayKeyRow
key_row = record {
  id = "k1";
  is_active = true;
  is_deleted = false;
  quota_month = 10;
  requests_used = 9;
}

abbrev known_key : AuthenticatedGatewayKey
known_key = record {
  key_id = "k1";
  key_qps_limit = 5;
  gateway = record { id = "g1"; qps_limit = 60; upstreams = [] };
}

abbrev state : AdmissionState
state = record { buckets = λ k. record { window = 0; count = 0 }; keys = key_row ∷ [] }

abbrev headers : RequestHeaders
headers = record { authorization = "Bearer secret"; x_api_key = "" }

abbrev arrival : Arrival
arrival = record {
  headers = headers;
  at = 1000 * second;
  key = λ k. some known_key;
  qps = λ p. some true;
}

-- One request of the quota is left, and one of two is admitted.
one_of_two : count_admitted "k1" (arrival ∷ arrival ∷ []) state ≡ 1
unfolding count_admitted authenticate_gateway_request plain_key trim_space to_lower has_prefix
    drop_runes admit_by_rate admit_by_quota reserve_gateway_key_request has_quota
one_of_two = refl

authenticate-Charged_example :
    Charged
      (authenticate_gateway_request
        (λ k. some known_key)
        (λ p. some true)
        headers
        state
        (1000 * second)).0
      state.keys
      (authenticate_gateway_request
        (λ k. some known_key)
        (λ p. some true)
        headers
        state
        (1000 * second)).1.keys
authenticate-Charged_example =
    authenticate-Charged (λ k. some known_key) (λ p. some true) headers state (1000 * second)

admissions_within_quota_example : 9 + count_admitted "k1" (arrival ∷ arrival ∷ []) state ≤ 10
unfolding find_key
admissions_within_quota_example =
    admissions_within_quota (arrival ∷ arrival ∷ []) "k1" key_row state refl (omega arith)
      (omega arith)
