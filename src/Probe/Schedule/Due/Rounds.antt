-- ===== src/Probe/Schedule/Due/Rounds.antt =====
-- What the ticks of the scheduler promise: which targets are served, and how soon.
use tok_hub.Prelude.{
  ℕ, String, ◌≡◌, ap, ◌⊎◌, inl, inr, ◌↔◌, true, false, some, List, [], ◌∷◌, get_elem?, Occurs,
  All-Occurs,
}
use tok_hub.Clock.{Time}
use tok_hub.Probe.Schedule.{
  ProbeScheduleTarget, probe_layers, probe_layer_missing, probe_layer_due, scheduled_probe_tasks,
}
use tok_hub.Probe.Schedule.Due.Layers.{probe_layer_missing-due}
use tok_hub.Probe.Schedule.Due.Passes.{NoneMisses}
use tok_hub.Probe.Schedule.Due.Ticks.{Served, NothingDue, missing, due, idle, tick_outcome}

-- A tick that publishes anything publishes one task, for a layer that is due on a target of the
-- list, and the next tick starts behind that target.
pub published_task_is_due :
    (t : ProbeScheduleTarget) (ts : List ProbeScheduleTarget) (now : Time) (cursor : ℕ)
    → ((scheduled_probe_tasks (t ∷ ts) now cursor).tasks ≡ [])
      ⊎ Served (t ∷ ts) now (scheduled_probe_tasks (t ∷ ts) now cursor)
published_task_is_due t ts now cursor = elim (tick_outcome t ts now cursor) [
  | missing served misses ↦ inr served
  | due served none_misses ↦ inr served
  | idle e nothing_due ↦ inl (ap (λ tick. tick.tasks) e)
]

-- A tick publishes nothing exactly when no layer of any target is due.
pub idle_tick_iff :
    (t : ProbeScheduleTarget) (ts : List ProbeScheduleTarget) (now : Time) (cursor : ℕ)
    → ((scheduled_probe_tasks (t ∷ ts) now cursor).tasks ≡ [])
      ↔ ((j : ℕ) (u : ProbeScheduleTarget) → get_elem? (t ∷ ts) j ≡ some u → NothingDue now u)
idle_tick_iff t ts now cursor = elim (tick_outcome t ts now cursor) [
  | missing served misses ↦ busy served
  | due served none_misses ↦ busy served
  | idle e nothing_due ↦ (λ _. nothing_due, λ _. ap (λ tick. tick.tasks) e)
]
  where
    busy :
        Served (t ∷ ts) now (scheduled_probe_tasks (t ∷ ts) now cursor)
        → ((scheduled_probe_tasks (t ∷ ts) now cursor).tasks ≡ [])
          ↔ ((j : ℕ) (u : ProbeScheduleTarget) → get_elem? (t ∷ ts) j ≡ some u → NothingDue now u)
    busy served = (
      λ empty. (let e = served.tasks in absurd cc),
      λ nothing.
          (let no_due =
              All-Occurs (λ layer. probe_layer_due served.target layer now ≡ false) probe_layers
                served.layer (nothing served.index served.target served.is_there) served.is_layer in
            let is_due = served.is_due in absurd cc),
    )

-- While a target of the list misses a layer, the tick publishes a task, and for a layer that its
-- target misses.
pub missing_layers_come_first :
    (t : ProbeScheduleTarget) (ts : List ProbeScheduleTarget) (now : Time) (cursor : ℕ) (j : ℕ)
    (u : ProbeScheduleTarget) (layer : String)
    → get_elem? (t ∷ ts) j ≡ some u
    → Occurs layer probe_layers
    → probe_layer_missing u layer ≡ true
    → (served : Served (t ∷ ts) now (scheduled_probe_tasks (t ∷ ts) now cursor))
      × (probe_layer_missing served.target served.layer ≡ true)
missing_layers_come_first t ts now cursor j u layer there is_layer misses =
    elim (tick_outcome t ts now cursor) [
      | missing served others ↦ (served, others)
      | due served none_misses ↦
          (let no =
              All-Occurs (NoneMisses (t ∷ ts)) probe_layers layer none_misses is_layer j u there in
            absurd cc)
      | idle e nothing_due ↦
          (let no =
              All-Occurs (λ l. probe_layer_due u l now ≡ false) probe_layers layer
                (nothing_due j u there) is_layer in
            let is_due = probe_layer_missing-due u layer now misses in absurd cc)
    ]
