-- ===== src/Probe/Schedule/Pace.antt =====
-- How often the scheduler may run a layer.
use tok_hub.Prelude.{◌*◌, ◌≤◌, String, Bool, true, false, ◌||◌, arith, ◌==◌, if◌then◌else◌}
use tok_hub.Clock.{Time, minute, hour}
use tok_hub.Probe.Schedule.{ProbeScheduleTarget, Intervals, status_intervals, probe_layer_interval}

-- The intervals that a status gives its layers.
record IsOrdered (i : Intervals) : Type 0 where
  l1 : 5 * minute ≤ i.l1
  l1-l2 : i.l1 ≤ i.l2
  l2 : i.l2 ≤ 6 * hour
  l2-l3 : i.l2 ≤ i.l3
  l3 : i.l3 ≤ 24 * hour

-- One of two ordered records is ordered.
IsOrdered-if :
    (b : Bool) (x y : Intervals) → IsOrdered x → IsOrdered y → IsOrdered (if b then x else y)
IsOrdered-if true x y h k = h
IsOrdered-if false x y h k = k

status_intervals-IsOrdered : (status : String) → IsOrdered (status_intervals status)
unfolding status_intervals
status_intervals-IsOrdered status =
    IsOrdered-if (status == "healthy") _ _
      (record {
        l1 = omega arith;
        l1-l2 = omega arith;
        l2 = omega arith;
        l2-l3 = omega arith;
        l3 = omega arith;
      })
      (IsOrdered-if
        (status == "degraded" || status == "connectivity_down" || status == "functional_down") _ _
        (record {
          l1 = omega arith;
          l1-l2 = omega arith;
          l2 = omega arith;
          l2-l3 = omega arith;
          l3 = omega arith;
        })
        (IsOrdered-if (status == "auth_error") _ _
          (record {
            l1 = omega arith;
            l1-l2 = omega arith;
            l2 = omega arith;
            l2-l3 = omega arith;
            l3 = omega arith;
          })
          (record {
            l1 = omega arith;
            l1-l2 = omega arith;
            l2 = omega arith;
            l2-l3 = omega arith;
            l3 = omega arith;
          })))

-- Whatever the status and the age of a target, its layers run at most every five minutes and at
-- least once a day, and a layer never more often than the one before it.
pub layers_run_in_order :
    (t : ProbeScheduleTarget) (now : Time)
    → (5 * minute ≤ probe_layer_interval t "l1" now)
      × (probe_layer_interval t "l1" now ≤ probe_layer_interval t "l2" now)
      × (probe_layer_interval t "l2" now ≤ probe_layer_interval t "l3" now)
      × (probe_layer_interval t "l3" now ≤ 24 * hour)
unfolding probe_layer_interval
layers_run_in_order t now =
    let o = status_intervals-IsOrdered t.status in
    (o.l1, o.l1-l2, ground (arith, o.l2, o.l2-l3), ground (arith, o.l3))
