-- ===== src/Probe/Schedule/Due/Ticks.antt =====
-- What one tick of the scheduler publishes, and whom it passes over.
use tok_hub.Prelude.{
  ℕ, ◌+◌, ◌%◌, ◌<◌, String, ◌≡◌, refl, ◌⊎◌, inl, inr, true, false, some, List, [], ◌∷◌, arith,
  length, get_elem?, All, Occurs,
}
use tok_hub.Clock.{Time}
use tok_hub.Probe.Schedule.{
  ProbeScheduleTarget, ScheduledProbeTask, Tick, task_of, probe_layers, probe_layer_missing,
  probe_layer_due, first_due_probe_layer, append_scheduled_probe_tasks,
  append_missing_scheduled_probe_tasks, missing_layer, start_cursor, scheduled_probe_tasks,
}
use tok_hub.Probe.Schedule.Search.{Hit, scan_all}
use tok_hub.Probe.Schedule.Due.Layers.{
  probe_layer_missing-due, missing_layer-some, first_due-none, first_due-some,
}
use tok_hub.Probe.Schedule.Due.Passes.{
  idle_tick, NoneMisses, MissingPass, start_cursor_lt, Miss-everywhere, missing_pass,
}

-- The tick served a target of the list for a layer, and the next one starts behind it.
pub record Served (targets : List ProbeScheduleTarget) (now : Time) (tick : Tick) : Type 0 where
  pub index : ℕ
  pub target : ProbeScheduleTarget
  pub layer : String
  pub is_layer : Occurs layer probe_layers
  pub is_there : get_elem? targets index ≡ some target
  pub is_due : probe_layer_due target layer now ≡ true
  pub tasks : tick.tasks ≡ task_of target layer ∷ []
  pub next_cursor : tick.next_cursor ≡ (index + 1) % length targets

-- No layer of the target is due.
abbrev pub NothingDue : Time → ProbeScheduleTarget → Type 0
NothingDue now t = All (λ layer. probe_layer_due t layer now ≡ false) probe_layers

pub data TickOutcome (targets : List ProbeScheduleTarget) (now : Time) (cursor : ℕ) (after : Tick)
    : Type 0 where
  missing :
      (served : Served targets now after)
      → probe_layer_missing served.target served.layer ≡ true
      → TickOutcome targets now cursor after
  due :
      Served targets now after
      → All (NoneMisses targets) probe_layers
      → TickOutcome targets now cursor after
  idle :
      after ≡ idle_tick cursor
      → ((j : ℕ) (t : ProbeScheduleTarget) → get_elem? targets j ≡ some t → NothingDue now t)
      → TickOutcome targets now cursor after

module _ (targets : List ProbeScheduleTarget) (now : Time) (cursor : ℕ) where
  -- The tick served a target for a layer that never ran.
  abbrev ServedMissing : Tick → Type 0
  ServedMissing after =
      (served : Served targets now after) × (probe_layer_missing served.target served.layer ≡ true)

  serve_missing :
      (layer : String) (after : Tick)
      → Occurs layer probe_layers
      → Hit targets (missing_layer layer) cursor 0 (length targets) after
      → ServedMissing after
  serve_missing layer after is_layer hit =
      let (e, m) = missing_layer-some layer hit.found.layer hit.found.target hit.found.has_layer in
      (
        record {
          index = _;
          target = hit.found.target;
          layer = hit.found.layer;
          is_layer = rw e is_layer;
          is_there = hit.found.is_there;
          is_due = probe_layer_missing-due hit.found.target hit.found.layer now m;
          tasks = hit.found.tasks;
          next_cursor = hit.found.next_cursor;
        },
        m,
      )

  due_pass :
      cursor < length targets
      → All (NoneMisses targets) probe_layers
      → TickOutcome targets now cursor (
          append_scheduled_probe_tasks targets [] cursor
            (λ target. first_due_probe_layer target now))
  unfolding append_scheduled_probe_tasks first_due_probe_layer
  due_pass c<n none_misses =
      elim (scan_all targets (λ target. first_due_probe_layer target now) cursor cursor) [
        | inl hit ↦
            due
              (record {
                index = _;
                target = hit.found.target;
                layer = hit.found.layer;
                is_layer =
                    (first_due-some hit.found.target now probe_layers _ hit.found.has_layer).0;
                is_there = hit.found.is_there;
                is_due = (first_due-some hit.found.target now probe_layers _ hit.found.has_layer).1;
                tasks = hit.found.tasks;
                next_cursor = hit.found.next_cursor;
              })
              none_misses
        | inr miss ↦ idle miss.unchanged (λ j t there.
            first_due-none t now probe_layers
              (Miss-everywhere targets _ cursor _ _ c<n miss j t there))
      ]

  missing_tick :
      (layers : List String) (after : Tick)
      → ((layer : String) → Occurs layer layers → Occurs layer probe_layers)
      → MissingPass targets cursor layers after
      → ServedMissing after ⊎ (All (NoneMisses targets) layers × (after ≡ idle_tick cursor))
  missing_tick [] after within e = inr (tt, e)
  missing_tick (layer ∷ layers) after within (inl hit) =
      inl (serve_missing layer after (within layer (inl refl)) hit)
  missing_tick (layer ∷ layers) after within (inr (none_misses, later)) =
      elim (missing_tick layers after (λ l m. within l (inr m)) later) [
        | inl served ↦ inl served
        | inr (others, e) ↦ inr ((none_misses, others), e)
      ]

module _ (t : ProbeScheduleTarget) (ts : List ProbeScheduleTarget) (now : Time) (cursor : ℕ) where
  abbrev first_pass : Tick
  first_pass = append_missing_scheduled_probe_tasks (t ∷ ts) [] (start_cursor (t ∷ ts) cursor)

  -- A tick whose first pass found a task ends there; the others go on to the second pass.
  pub scheduled-full :
      (task : ScheduledProbeTask)
      → first_pass.tasks ≡ task ∷ []
      → scheduled_probe_tasks (t ∷ ts) now cursor ≡ first_pass
  unfolding scheduled_probe_tasks
  scheduled-full task e = simp (scheduled_probe_tasks, e) refl

  scheduled-next :
      first_pass ≡ idle_tick (start_cursor (t ∷ ts) cursor)
      → scheduled_probe_tasks (t ∷ ts) now cursor
        ≡ append_scheduled_probe_tasks
            (t ∷ ts)
            []
            (start_cursor (t ∷ ts) cursor)
            (λ target. first_due_probe_layer target now)
  unfolding scheduled_probe_tasks
  scheduled-next e = simp (scheduled_probe_tasks, e) refl

  pub tick_outcome :
      TickOutcome
        (t ∷ ts)
        now
        (start_cursor (t ∷ ts) cursor)
        (scheduled_probe_tasks (t ∷ ts) now cursor)
  unfolding append_missing_scheduled_probe_tasks
  tick_outcome =
      let targets = t ∷ ts in
      let c = start_cursor targets cursor in
      let c<n : c < length targets = start_cursor_lt targets cursor (omega arith) in
      elim (missing_tick targets now c probe_layers first_pass (λ l m. m)
        (missing_pass targets c probe_layers c<n)) [
          | inl (served, misses) ↦ rw (scheduled-full _ served.tasks) (missing served misses)
          | inr (none_misses, e) ↦ rw (scheduled-next e) (due_pass targets now c c<n none_misses)
        ]
