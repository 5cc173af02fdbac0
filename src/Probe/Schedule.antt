-- ===== src/Probe/Schedule.antt =====
-- The probe scheduler, internal/events/probe_runtime.go: how often each layer of a channel runs,
-- and which tasks a tick publishes. A target keeps only what the scheduler reads.
pub mod Search
pub mod Due
pub mod Pace
use tok_hub.Prelude.{
  ℕ, zero, suc, ◌+◌, ◌-◌, ◌*◌, ◌%◌, String, Bool, true, false, not, ◌&&◌, ◌||◌, Option, none, some,
  List, [], ◌∷◌, ◌++◌, ◌==◌, ltb, leb, length, get_elem?, if◌then◌else◌,
}
use tok_hub.Clock.{Time, Duration, minute, hour, day, is_zero, is_unix_zero}

pub record ProbeScheduleTarget : Type 0 where
  pub id : String
  pub status : String
  pub created_at : Time
  pub last_l1_at : Time
  pub last_l2_at : Time
  pub last_l3_at : Time

unfoldable pub last_probe_at : ProbeScheduleTarget → String → Time
last_probe_at t layer =
    if layer == "l1"
    then t.last_l1_at
    else if layer == "l2"
    then t.last_l2_at
    else if layer == "l3"
    then t.last_l3_at
    else 0

unfoldable pub probe_layer_missing : ProbeScheduleTarget → String → Bool
probe_layer_missing target layer =
    let at = last_probe_at target layer in is_zero at || is_unix_zero at

abbrev new_target_window : Duration
new_target_window = 24 * hour

abbrev new_target_l3_interval : Duration
new_target_l3_interval = 8 * hour

unfoldable pub is_new_probe_target : ProbeScheduleTarget → Time → Bool
is_new_probe_target target now =
    if is_zero target.created_at || ltb now target.created_at
    then true
    else leb (now - target.created_at) new_target_window

pub record Intervals : Type 0 where
  pub l1 : Duration
  pub l2 : Duration
  pub l3 : Duration

-- The intervals of a status, before the rule for new targets.
unfoldable pub status_intervals : String → Intervals
status_intervals status =
    if status == "healthy"
    then record { l1 = 15 * minute; l2 = 4 * hour; l3 = 24 * hour }
    else if status == "degraded" || status == "connectivity_down" || status == "functional_down"
    then record { l1 = 5 * minute; l2 = 30 * minute; l3 = 6 * hour }
    else if status == "auth_error"
    then record { l1 = hour; l2 = 6 * hour; l3 = 24 * hour }
    else record { l1 = 5 * minute; l2 = 30 * minute; l3 = 24 * hour }

unfoldable pub probe_layer_interval : ProbeScheduleTarget → String → Time → Duration
probe_layer_interval target layer now =
    let base = status_intervals target.status in
    let l3 =
      if layer == "l3"
        && is_new_probe_target target now
        && not (target.status == "auth_error")
        && ltb new_target_l3_interval base.l3
      then new_target_l3_interval
      else base.l3 in
    if layer == "l1"
    then base.l1
    else if layer == "l2"
    then base.l2
    else if layer == "l3"
    then l3
    else 0

unfoldable pub probe_layer_due : ProbeScheduleTarget → String → Time → Bool
probe_layer_due target layer now =
    let last = last_probe_at target layer in
    let interval = probe_layer_interval target layer now in
    if probe_layer_missing target layer
    then true
    else if leb interval 0
    then false
    else leb last now && leb interval (now - last)

abbrev pub probe_layers : List String
probe_layers = "l1" ∷ "l2" ∷ "l3" ∷ []

-- The loop of firstDueProbeLayer.
unfoldable pub first_due : ProbeScheduleTarget → Time → List String → Option String
first_due target now [] = none
first_due target now (layer ∷ layers) =
    let rest = first_due target now layers in
    if probe_layer_due target layer now then some layer else rest

unfoldable pub first_due_probe_layer : ProbeScheduleTarget → Time → Option String
unfolding first_due
first_due_probe_layer target now = first_due target now probe_layers

pub record ScheduledProbeTask : Type 0 where
  pub channel_id : String
  pub layer : String

abbrev pub max_tasks_per_tick : ℕ
max_tasks_per_tick = 1

-- What the loops over the targets change: the tasks, and the cursor of the next tick.
pub record Tick : Type 0 where
  pub tasks : List ScheduledProbeTask
  pub next_cursor : ℕ

abbrev pub task_of : ProbeScheduleTarget → String → ScheduledProbeTask
task_of target layer = record { channel_id = target.id; layer = layer }

-- The body of the loops for the target at `index`; an index past the end is a panic, which the
-- remainder excludes, and leaves the tick alone here.
unfoldable pub visit :
    List ProbeScheduleTarget → (ProbeScheduleTarget → Option String) → ℕ → Tick → Tick
visit targets layer_of index tick = elim (get_elem? targets index) [
  | none ↦ tick
  | some target ↦ elim (layer_of target) [
    | none ↦ tick
    | some layer ↦ record {
      tasks = tick.tasks ++ task_of target layer ∷ [];
      next_cursor = (index + 1) % length targets;
    }
  ]
]

-- The loop of appendScheduledProbeTasks from `checked`, with the rounds that are left.
unfoldable pub scan :
    List ProbeScheduleTarget → (ProbeScheduleTarget → Option String) → ℕ → ℕ → ℕ → Tick → Tick
scan targets layer_of cursor checked zero tick = tick
scan targets layer_of cursor checked (suc rounds) tick =
    elim (ltb (length tick.tasks) max_tasks_per_tick) [
      | true ↦
          scan targets layer_of cursor (checked + 1) rounds
            (visit targets layer_of ((cursor + checked) % length targets) tick)
      | false ↦ tick
    ]

unfoldable pub append_scheduled_probe_tasks :
    List ProbeScheduleTarget
    → List ScheduledProbeTask
    → ℕ
    → (ProbeScheduleTarget → Option String)
    → Tick
append_scheduled_probe_tasks targets tasks cursor layer_of =
    scan targets layer_of cursor 0 (length targets) (record { tasks = tasks; next_cursor = cursor })

abbrev pub missing_layer : String → ProbeScheduleTarget → Option String
missing_layer layer target = if probe_layer_missing target layer then some layer else none

-- The loop over the layers of appendMissingScheduledProbeTasks.
unfoldable pub append_missing : List ProbeScheduleTarget → ℕ → List String → Tick → Tick
append_missing targets cursor [] tick = tick
append_missing targets cursor (layer ∷ layers) tick =
    let tick' = scan targets (missing_layer layer) cursor 0 (length targets) tick in
    elim (leb max_tasks_per_tick (length tick'.tasks)) [
      | true ↦ tick'
      | false ↦ append_missing targets cursor layers tick'
    ]

unfoldable pub append_missing_scheduled_probe_tasks :
    List ProbeScheduleTarget → List ScheduledProbeTask → ℕ → Tick
append_missing_scheduled_probe_tasks targets tasks cursor =
    append_missing targets cursor probe_layers (record { tasks = tasks; next_cursor = cursor })

-- The cursor that a tick starts from; a negative cursor of the source cannot arise from one.
abbrev pub start_cursor : List ProbeScheduleTarget → ℕ → ℕ
start_cursor targets cursor = if leb (length targets) cursor then 0 else cursor

unfoldable pub scheduled_probe_tasks : List ProbeScheduleTarget → Time → ℕ → Tick
scheduled_probe_tasks [] now cursor = record { tasks = []; next_cursor = 0 }
scheduled_probe_tasks (t ∷ ts) now cursor =
    let targets = t ∷ ts in
    let tick = append_missing_scheduled_probe_tasks targets [] (start_cursor targets cursor) in
    if ltb (length tick.tasks) max_tasks_per_tick
    then append_scheduled_probe_tasks targets tick.tasks tick.next_cursor
        (λ target. first_due_probe_layer target now)
    else tick
