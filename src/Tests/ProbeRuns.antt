-- ===== src/Tests/ProbeRuns.antt =====
-- Runs of the probe scheduler and of the summaries of a probe.
use tok_hub.Prelude.{
  ℕ, ◌*◌, ◌≤◌, ◌<◌, ◌≡◌, refl, ◌⊎◌, inl, inr, ◌↔◌, true, some, List, [], ◌∷◌, ◌++◌, arith,
  get_elem?, if◌then◌else◌,
}
use tok_hub.Clock.{Time, minute, hour}
use tok_hub.Probe.Status.{LayerSummary, synthesize_status_with_l3}
use tok_hub.Probe.Status.Outcomes.{
  is_status, l3_speaks, l3_healthy, base_healthy, synthesize-healthy,
}
use tok_hub.Probe.Status.Names.{IsWellNamed, synthesize-IsWellNamed}
use tok_hub.Probe.Steps.{StepResult, summary, summarize}
use tok_hub.Probe.Steps.Summary.{summarize-bad, summarize-good}
use tok_hub.Probe.Schedule.{
  ProbeScheduleTarget, task_of, probe_layer_missing, last_probe_at, probe_layer_interval,
  scheduled_probe_tasks,
}
use tok_hub.Probe.Schedule.Due.Ticks.{Served, NothingDue}
use tok_hub.Probe.Schedule.Due.Rounds.{
  published_task_is_due, idle_tick_iff, missing_layers_come_first,
}
use tok_hub.Probe.Schedule.Due.Fairness.{tick_at, served_within_a_round}
use tok_hub.Probe.Schedule.Pace.{layers_run_in_order}

abbrev slow_generation : LayerSummary
slow_generation = summary "warn" 900 "slow_response"

abbrev all_ok : LayerSummary
all_ok = summary "ok" 10 ""

synthesize-healthy_example :
    is_status "healthy" (synthesize_status_with_l3 all_ok all_ok slow_generation) ≡ (
      if l3_speaks slow_generation
      then l3_healthy all_ok all_ok slow_generation
      else base_healthy all_ok all_ok)
synthesize-healthy_example = synthesize-healthy all_ok all_ok slow_generation

slow_probe-IsWellNamed : IsWellNamed (synthesize_status_with_l3 all_ok all_ok slow_generation)
slow_probe-IsWellNamed = synthesize-IsWellNamed all_ok all_ok slow_generation

abbrev dns_ok : StepResult
dns_ok = record { step = "dns"; status = "ok"; latency_ms = 4; http_status = 0; error_type = "" }

abbrev tls_down : StepResult
tls_down = record {
  step = "tls";
  status = "down";
  latency_ms = 9;
  http_status = 0;
  error_type = "tls_error";
}

abbrev skipped : StepResult
skipped = record { step = "http"; status = "na"; latency_ms = 0; http_status = 0; error_type = "" }

bad_step_fails :
    summarize ((dns_ok ∷ []) ++ tls_down ∷ skipped ∷ []) ≡ summary "down" 13 "tls_error"
bad_step_fails = summarize-bad (dns_ok ∷ []) tls_down (skipped ∷ []) (refl, tt) refl

skipped_steps_pass : summarize (dns_ok ∷ skipped ∷ []) ≡ summary "ok" 4 ""
skipped_steps_pass = summarize-good (dns_ok ∷ skipped ∷ []) (refl, (refl, tt))

abbrev now : Time
now = 63_000_000_000_000_000_000

abbrev probed : ProbeScheduleTarget
probed = record {
  id = "a";
  status = "healthy";
  created_at = now;
  last_l1_at = now;
  last_l2_at = now;
  last_l3_at = now;
}

abbrev unprobed : ProbeScheduleTarget
unprobed = record {
  id = "b";
  status = "unknown";
  created_at = now;
  last_l1_at = 0;
  last_l2_at = 0;
  last_l3_at = 0;
}

abbrev two_targets : List ProbeScheduleTarget
two_targets = probed ∷ unprobed ∷ []

published_task_is_due_example :
    ((scheduled_probe_tasks two_targets now 7).tasks ≡ [])
    ⊎ Served two_targets now (scheduled_probe_tasks two_targets now 7)
published_task_is_due_example = published_task_is_due probed (unprobed ∷ []) now 7

idle_tick_iff_example :
    ((scheduled_probe_tasks (probed ∷ []) now 0).tasks ≡ [])
    ↔ ((j : ℕ) (u : ProbeScheduleTarget) → get_elem? (probed ∷ []) j ≡ some u → NothingDue now u)
idle_tick_iff_example = idle_tick_iff probed [] now 0

missing_layers_come_first_example :
    (served : Served two_targets now (scheduled_probe_tasks two_targets now 0))
    × (probe_layer_missing served.target served.layer ≡ true)
unfolding probe_layer_missing last_probe_at
missing_layers_come_first_example =
    missing_layers_come_first probed (unprobed ∷ []) now 0 1 unprobed "l2" refl (inr (inl refl))
      refl

served_within_a_round_example :
    (k : ℕ) × (k < 2)
    × ((tick_at (λ _. two_targets) (λ _. now) 0 k).tasks ≡ task_of unprobed "l1" ∷ [])
unfolding probe_layer_missing last_probe_at
served_within_a_round_example =
    served_within_a_round (λ _. two_targets) (λ _. now) 0 2 1 (λ _. unprobed) (λ k h. refl)
      (λ k h. refl) (λ k h. refl) (omega arith)

unprobed_layers_run :
    (5 * minute ≤ probe_layer_interval unprobed "l1" now)
    × (probe_layer_interval unprobed "l1" now ≤ probe_layer_interval unprobed "l2" now)
    × (probe_layer_interval unprobed "l2" now ≤ probe_layer_interval unprobed "l3" now)
    × (probe_layer_interval unprobed "l3" now ≤ 24 * hour)
unprobed_layers_run = layers_run_in_order unprobed now
