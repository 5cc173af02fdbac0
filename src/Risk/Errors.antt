-- ===== src/Risk/Errors.antt =====
-- The answer to a failed task and the state that its record leads to: `officialClientResultError`
-- of internal/api/gateway_handlers.go against RecordAIClientResult.
use tok_hub.Prelude.{
  ℕ, String, ◌≡◌, ◌≢◌, refl, sym, subst, ◌⊎◌, ◌↔◌, Bool, true, false, ◌||◌, List, [], ◌∷◌, ◌++◌,
  arith, ◌==◌, eq_iff, Bool-cases, inl, inr, All, if◌then◌else◌, Occurs, All-Occurs,
}
use tok_hub.Prelude.Text.{to_lower, trim_space}
use tok_hub.Clock.{Time, Duration}
use tok_hub.Risk.{
  AiClientRisk, RiskState, cooldown, reauth_required, security_locked, policy_locked,
  manual_recovery, normalize,
}
use tok_hub.Risk.Outcome.{rate_limited, other, classify, failed, fail_with, record_result}
use tok_hub.Risk.Locks.{IsLocked}
use tok_hub.Risk.Rejection.{result_error_with, official_client_result_error}

abbrev login_codes : List String
login_codes = "unauthorized" ∷ "login_required" ∷ "401" ∷ []

abbrev security_codes : List String
security_codes = "forbidden" ∷ "security_challenge" ∷ "403" ∷ "identity_changed" ∷ []

abbrev policy_codes : List String
policy_codes = "tool_event" ∷ "tool_call" ∷ "policy_violation" ∷ []

abbrev rate_codes : List String
rate_codes = "rate_limited" ∷ "429" ∷ []

abbrev timeout_codes : List String
timeout_codes = "timeout" ∷ "cancelled" ∷ []

abbrev listed_codes : List String
listed_codes =
    "unsupported_capability" ∷ login_codes
    ++ security_codes
    ++ policy_codes
    ++ rate_codes
    ++ timeout_codes

-- The code of a failed task, the status of the answer and the state that is recorded.
pub data Answered (code : String) : ℕ → RiskState → Type 0 where
  login_is_over : Occurs code login_codes → Answered code 409 reauth_required
  security_is_at_risk : Occurs code security_codes → Answered code 423 security_locked
  policy_is_violated : Occurs code policy_codes → Answered code 423 policy_locked
  rate_is_limited : Occurs code rate_codes → Answered code 429 cooldown
  rate_is_limited_again : Occurs code rate_codes → Answered code 429 manual_recovery
  time_is_over : Occurs code timeout_codes → Answered code 504 cooldown
  is_unsupported : code ≡ "unsupported_capability" → Answered code 422 cooldown
  is_unlisted : ¬ Occurs code listed_codes → Answered code 502 cooldown

one_of_three : (a b c : Bool) → (a || b || c) ≡ true → (a ≡ true) ⊎ ((b ≡ true) ⊎ (c ≡ true))
one_of_three a b c h = ground arith

-- The two `switch` statements name the last classes in different orders.
rate_limit_is_no_tool :
    (code : String)
    → (code == "tool_event" || code == "tool_call" || code == "policy_violation") ≡ true
    → (code == "rate_limited" || code == "429") ≡ false
rate_limit_is_no_tool code h = elim (one_of_three _ _ _ h) [
  | inl e ↦ rw ((eq_iff code "tool_event").0 e)
  | inr (inl e) ↦ rw ((eq_iff code "tool_call").0 e)
  | inr (inr e) ↦ rw ((eq_iff code "policy_violation").0 e)
]

apart : (code c : String) → (code == c) ≡ false → code ≢ c
apart code c h e = let same = (eq_iff code c).1 e in absurd cc

one_of_two : (a b : Bool) → (a || b) ≡ true → (a ≡ true) ⊎ (b ≡ true)
one_of_two a b h = ground arith

two-Occurs : (code a b : String) → (code == a || code == b) ≡ true → Occurs code (a ∷ b ∷ [])
two-Occurs code a b h = elim (one_of_two _ _ h) [
  | inl e ↦ inl ((eq_iff code a).0 e)
  | inr e ↦ inr (inl ((eq_iff code b).0 e))
]

three-Occurs :
    (code a b c : String) (l : List String)
    → (code == a || code == b || code == c) ≡ true
    → Occurs code (a ∷ b ∷ c ∷ l)
three-Occurs code a b c l h = elim (one_of_three _ _ _ h) [
  | inl e ↦ inl ((eq_iff code a).0 e)
  | inr (inl e) ↦ inr (inl ((eq_iff code b).0 e))
  | inr (inr e) ↦ inr (inr (inl ((eq_iff code c).0 e)))
]

rate_limit_state :
    (row : AiClientRisk) (retry : Duration) (now : Time)
    → ((fail_with rate_limited row retry now).state ≡ cooldown)
      ⊎ ((fail_with rate_limited row retry now).state ≡ manual_recovery)
unfolding fail_with
rate_limit_state row retry now = ground arith

rate-Answered :
    (code : String) (row : AiClientRisk) (retry : Duration) (now : Time)
    → (code == "rate_limited" || code == "429") ≡ true
    → Answered code 429 (fail_with rate_limited row retry now).state
rate-Answered code row retry now h = elim (rate_limit_state row retry now) [
  | inl e ↦ subst (Answered code 429) (sym e) (rate_is_limited (two-Occurs code _ _ h))
  | inr e ↦ subst (Answered code 429) (sym e) (rate_is_limited_again (two-Occurs code _ _ h))
]

unlisted :
    (code : String)
    → (code == "unauthorized" || code == "login_required" || code == "401") ≡ false
    → (code == "forbidden" || code == "security_challenge" || code == "403") ≡ false
    → (code == "identity_changed") ≡ false
    → (code == "tool_event" || code == "tool_call" || code == "policy_violation") ≡ false
    → (code == "rate_limited" || code == "429") ≡ false
    → (code == "timeout" || code == "cancelled") ≡ false
    → (code == "unsupported_capability") ≡ false
    → ¬ Occurs code listed_codes
unlisted code a b c d e f g m =
    let others : All (λ x. code ≢ x) listed_codes = (
      apart code _ g,
      (
        apart code _ (ground arith),
        (
          apart code _ (ground arith),
          (
            apart code _ (ground arith),
            (
              apart code _ (ground arith),
              (
                apart code _ (ground arith),
                (
                  apart code _ (ground arith),
                  (
                    apart code _ c,
                    (
                      apart code _ (ground arith),
                      (
                        apart code _ (ground arith),
                        (
                          apart code _ (ground arith),
                          (
                            apart code _ (ground arith),
                            (
                              apart code _ (ground arith),
                              (apart code _ (ground arith), (apart code _ (ground arith), tt)),
                            ),
                          ),
                        ),
                      ),
                    ),
                  ),
                ),
              ),
            ),
          ),
        ),
      ),
    ) in
    All-Occurs (λ x. code ≢ x) listed_codes code others m refl

-- The codes that the record does not tell apart.
other-Answered :
    (code message : String)
    → (code == "unauthorized" || code == "login_required" || code == "401") ≡ false
    → (code == "forbidden" || code == "security_challenge" || code == "403") ≡ false
    → (code == "identity_changed") ≡ false
    → (code == "tool_event" || code == "tool_call" || code == "policy_violation") ≡ false
    → (code == "rate_limited" || code == "429") ≡ false
    → Answered code (result_error_with code message).status cooldown
unfolding result_error_with
other-Answered code message a b c d e =
    elim (Bool-cases (code == "timeout" || code == "cancelled")) [
      | inl f ↦ rw (a, b, c, d, e, f) (time_is_over (two-Occurs code _ _ f))
      | inr f ↦ elim (Bool-cases (code == "unsupported_capability")) [
        | inl g ↦
            rw (a, b, c, d, e, f, g) (is_unsupported ((eq_iff code "unsupported_capability").0 g))
        | inr g ↦ rw (a, b, c, d, e, f, g) (is_unlisted (unlisted code a b c d e f g))
      ]
    ]

with-Answered :
    (code message : String) (row : AiClientRisk) (retry : Duration) (now : Time)
    → Answered code
        (result_error_with code message).status
        (fail_with (classify code) row retry now).state
unfolding result_error_with classify fail_with
with-Answered code message row retry now =
    elim (Bool-cases (code == "unauthorized" || code == "login_required" || code == "401")) [
      | inl a ↦ rw a (login_is_over (three-Occurs code _ _ _ [] a))
      | inr a ↦
          elim (Bool-cases (code == "forbidden" || code == "security_challenge" || code == "403")) [
            | inl b ↦
                rw (a, b)
                  (security_is_at_risk (three-Occurs code _ _ _ ("identity_changed" ∷ []) b))
            | inr b ↦ elim (Bool-cases (code == "identity_changed")) [
              | inl c ↦
                  rw (a, b, c)
                    (security_is_at_risk
                      (inr (inr (inr (inl ((eq_iff code "identity_changed").0 c))))))
              | inr c ↦
                  elim (Bool-cases
                    (code == "tool_event" || code == "tool_call" || code == "policy_violation")) [
                      | inl d ↦
                          rw (a, b, c, d, rate_limit_is_no_tool code d)
                            (policy_is_violated (three-Occurs code _ _ _ [] d))
                      | inr d ↦ elim (Bool-cases (code == "rate_limited" || code == "429")) [
                        | inl e ↦ rw (a, b, c, d, e) (rate-Answered code row retry now e)
                        | inr e ↦
                            (let o : classify code ≡ other = rw (a, b, c, d, e) refl in
                              subst
                                (λ k.
                                  Answered code (result_error_with code message).status
                                    (fail_with k row retry now).state)
                                (sym o) (other-Answered code message a b c d e))
                      ]
                    ]
            ]
          ]
    ]

-- What the rows of the table have in common.
answers_agree :
    (code : String) (n : ℕ) (state : RiskState)
    → Answered code n state
    → ((n ≡ 409) ↔ (state ≡ reauth_required)) × ((n ≡ 423) ↔ IsLocked state)
answers_agree code _ _ (login_is_over m) = ground arith
answers_agree code _ _ (security_is_at_risk m) = ground arith
answers_agree code _ _ (policy_is_violated m) = ground arith
answers_agree code _ _ (rate_is_limited m) = ground arith
answers_agree code _ _ (rate_is_limited_again m) = ground arith
answers_agree code _ _ (time_is_over m) = ground arith
answers_agree code _ _ (is_unsupported e) = ground arith
answers_agree code _ _ (is_unlisted m) = ground arith

-- Of a failed task whose code is trimmed and in lower case, the answer and the recorded state agree:
-- the status is 409 exactly where the login is to be renewed, and 423 exactly where the connection is
-- locked. The codes of a lost login have 409; those of a security risk have 423 and lock for security;
-- those of a tool or a violation have 423 and lock by policy; those of a rate limit have 429 and cool
-- down or wait for the owner; a timeout and a cancellation have 504, an unsupported capability 422 and
-- any other code 502, and these cool down.
pub result_error_by_class :
    (code message : String) (s : AiClientRisk) (retry : Duration) (now : Time)
    → to_lower (trim_space code) ≡ code
    → let answer = (official_client_result_error code message).status in
      let state = (record_result s false code retry now).state in
      Answered code answer state
      × ((answer ≡ 409) ↔ (state ≡ reauth_required))
      × ((answer ≡ 423) ↔ IsLocked state)
unfolding official_client_result_error record_result
result_error_by_class code message s retry now canonical =
    let trimmed = trim_space message in
    let text = if trimmed == "" then "Official client task failed" else trimmed in
    let row = failed (normalize s now) code now in
    let h : Answered code (result_error_with code text).status
        (fail_with (classify code) row retry now).state =
      with-Answered code text row retry now in
    let agree = answers_agree code _ _ h in rw (record_result, canonical) (h, agree.0, agree.1)
