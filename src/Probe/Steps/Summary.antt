-- ===== src/Probe/Steps/Summary.antt =====
-- What a summary says: the first step that went wrong decides, and nothing behind it counts.
use tok_hub.Prelude.{
  ℕ, ◌+◌, String, ◌≡◌, refl, ap, ◌∙◌, Bool, true, false, not, ◌&&◌, ◌||◌, List, [], ◌∷◌, ◌++◌, ◌==◌,
  arith, All, any, Bool-cases, inl, inr, eq_iff, if◌then◌else◌,
}
use tok_hub.Probe.Steps.{StepResult, summary, summarize_from, summarize}

abbrev pub is_bad : StepResult → Bool
is_bad r = r.status == "auth_error" || r.status == "down" || r.status == "warn"

abbrev pub IsGood : StepResult → Type 0
IsGood r = is_bad r ≡ false

abbrev pub total_latency : List StepResult → ℕ
total_latency [] = 0
total_latency (r ∷ rs) = r.latency_ms + total_latency rs

-- A step of a failed authorization is reported as such, whatever its error type says.
abbrev pub blamed : StepResult → String
blamed r = if r.status == "auth_error" then "auth_error" else r.error_type

-- The error type of the first step that has one.
abbrev pub first_error : List StepResult → String
first_error [] = ""
first_error (r ∷ rs) = if r.error_type == "" then first_error rs else r.error_type

none_of_three : (a b c : Bool) → (a || b || c) ≡ false → (a ≡ false) × (b ≡ false) × (c ≡ false)
none_of_three a b c h = ground arith

last_of_three : (a b c : Bool) → (a || b || c) ≡ true → a ≡ false → b ≡ false → c ≡ true
last_of_three a b c h p q = ground arith

bad_step :
    (total : ℕ) (e : String) (saw_ok : Bool) (bad : StepResult) (rest : List StepResult)
    → is_bad bad ≡ true
    → summarize_from total e saw_ok (bad ∷ rest)
      ≡ summary bad.status (total + bad.latency_ms) (blamed bad)
unfolding summarize_from
bad_step total e saw_ok bad rest h = elim (Bool-cases (bad.status == "auth_error")) [
  | inl a ↦ rw ((eq_iff bad.status "auth_error").0 a)
  | inr a ↦ rw a (elim (Bool-cases (bad.status == "down")) [
    | inl d ↦ rw ((eq_iff bad.status "down").0 d)
    | inr d ↦ rw ((eq_iff bad.status "warn").0 (last_of_three _ _ _ h a d))
  ])
]

good_step :
    (total : ℕ) (e : String) (saw_ok : Bool) (good : StepResult) (rest : List StepResult)
    → IsGood good
    → summarize_from total e saw_ok (good ∷ rest)
      ≡ summarize_from
          (total + good.latency_ms)
          (if e == "" && not (good.error_type == "") then good.error_type else e)
          (if good.status == "ok" then true else saw_ok)
          rest
unfolding summarize_from
good_step total e saw_ok good rest h =
    let (a, d, w) =
      none_of_three (good.status == "auth_error") (good.status == "down") (good.status == "warn")
        h in
    rw (a, d, w)

-- The steps before the first bad one count with their latency alone.
summarize_from-bad :
    (good : List StepResult) (bad : StepResult) (rest : List StepResult)
    → All IsGood good
    → is_bad bad ≡ true
    → (total : ℕ) (e : String) (saw_ok : Bool)
    → summarize_from total e saw_ok (good ++ bad ∷ rest)
      ≡ summary bad.status (total + (total_latency good + bad.latency_ms)) (blamed bad)
summarize_from-bad [] bad rest ok h total e saw_ok =
    bad_step total e saw_ok bad rest h ∙ ap (λ n. summary bad.status n (blamed bad)) (omega arith)
summarize_from-bad (g ∷ good) bad rest ok h total e saw_ok =
    good_step total e saw_ok g (good ++ bad ∷ rest) ok.0
    ∙ summarize_from-bad good bad rest ok.1 h _ _ _
    ∙ ap (λ n. summary bad.status n (blamed bad)) (omega arith)

abbrev pub is_ok : StepResult → Bool
is_ok r = r.status == "ok"

ok_and_error :
    (a b : Bool) {n m : ℕ} (e f : String)
    → a ≡ b
    → e ≡ f
    → n ≡ m
    → summary (if a then "ok" else "na") n e ≡ summary (if b then "ok" else "na") m f
ok_and_error a b e f p q r = cc

first_of_itself : (e : String) → e ≡ (if e == "" then "" else e)
first_of_itself e = elim (Bool-cases (e == "")) [ inl p ↦ rw p ((eq_iff e "").0 p) | inr p ↦ rw p ]

nothing_more :
    (total : ℕ) (e : String) (saw_ok : Bool)
    → (if saw_ok then summary "ok" total e else summary "na" total e)
      ≡ summary (if saw_ok || false then "ok" else "na") (total + 0) (if e == "" then "" else e)
nothing_more total e true = ok_and_error true true _ _ refl (first_of_itself e) (omega arith)
nothing_more total e false = ok_and_error false false _ _ refl (first_of_itself e) (omega arith)

any_ok :
    (saw here later : Bool) → ((if here then true else saw) || later) ≡ (saw || (here || later))
any_ok saw here later = ground arith

first_kept :
    (e g rest : String)
    → (if (if e == "" && not (g == "") then g else e) == ""
        then rest
        else if e == "" && not (g == "")
        then g
        else e)
      ≡ (if e == "" then if g == "" then rest else g else e)
first_kept e g rest = elim (Bool-cases (e == "")) [
  | inr p ↦ rw (p, p)
  | inl p ↦ elim (Bool-cases (g == "")) [ inl q ↦ rw (p, q) (rw p) | inr q ↦ rw (p, q) (rw q) ]
]

summarize_from-good :
    (good : List StepResult)
    → All IsGood good
    → (total : ℕ) (e : String) (saw_ok : Bool)
    → summarize_from total e saw_ok good
      ≡ summary
          (if saw_ok || any is_ok good then "ok" else "na")
          (total + total_latency good)
          (if e == "" then first_error good else e)
unfolding summarize_from
summarize_from-good [] ok total e saw_ok = nothing_more total e saw_ok
summarize_from-good (g ∷ good) ok total e saw_ok =
    good_step total e saw_ok g good ok.0
    ∙ summarize_from-good good ok.1 _ _ _
    ∙ ok_and_error ((if is_ok g then true else saw_ok) || any is_ok good)
        (saw_ok || (is_ok g || any is_ok good)) _ _ (any_ok saw_ok (is_ok g) (any is_ok good))
        (first_kept e g.error_type (first_error good)) (omega arith)

-- A probe that has a step with a bad status is summarized by the first such step: its status, its
-- error type or auth_error, and the latency up to and with it, whatever follows.
pub summarize-bad :
    (good : List StepResult) (bad : StepResult) (rest : List StepResult)
    → All IsGood good
    → is_bad bad ≡ true
    → summarize (good ++ bad ∷ rest)
      ≡ summary bad.status (total_latency good + bad.latency_ms) (blamed bad)
unfolding summarize
summarize-bad [] bad rest ok h =
    summarize_from-bad [] bad rest ok h 0 "" false
    ∙ ap (λ n. summary bad.status n (blamed bad)) (omega arith)
summarize-bad (g ∷ good) bad rest ok h =
    summarize_from-bad (g ∷ good) bad rest ok h 0 "" false
    ∙ ap (λ n. summary bad.status n (blamed bad)) (omega arith)

-- A probe without a bad step is ok if a step is, and else not available, with the whole latency
-- and the first error type.
pub summarize-good :
    (good : List StepResult)
    → All IsGood good
    → summarize good
      ≡ summary (if any is_ok good then "ok" else "na") (total_latency good) (first_error good)
unfolding summarize
summarize-good [] ok = refl
summarize-good (g ∷ good) ok =
    summarize_from-good (g ∷ good) ok 0 "" false
    ∙ ap (λ n. summary (if any is_ok (g ∷ good) then "ok" else "na") n (first_error (g ∷ good)))
        (omega arith)
