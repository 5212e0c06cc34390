-- ===== src/Checker/Runners.antt =====
-- internal/checker/scheduler.go: the table of running monitors. A runner is the monitor as it was when its
-- ticker was started; its goroutine is not modelled.
use yip_yap_foss.Prelude.{
  ℤ, pos, ltb_ℤ, leb_ℤ, seconds, String, Bool, false, not, ◌&&◌, ◌||◌, Option, none, some, List, [],
  ◌∷◌, any, keep, str_eq, if◌then◌else◌,
}
use yip_yap_foss.Domain.Monitor.{Monitor}

pub record Runner : Type 0 where
  pub monitor : Monitor
  -- The ticker's period, in nanoseconds.
  pub interval : ℤ

-- `orDefault`.
unfoldable pub or_default : ℤ → ℤ → ℤ
or_default v def = if ltb_ℤ (pos 0) v then v else def

-- `monitors[id]`.
unfoldable pub find_runner : String → List Runner → Option Runner
find_runner i [] = none
find_runner i (r ∷ rs) = if str_eq r.monitor.id i then some r else find_runner i rs

abbrev pub runs : String → Runner → Bool
runs i r = str_eq r.monitor.id i

-- `stopRunnerLocked`, and `RemoveMonitor`.
unfoldable pub stop_runner : String → List Runner → List Runner
stop_runner i rs = keep (λ r. not (runs i r)) rs

-- The ticker's period: a second at least.
unfoldable pub runner_interval : Monitor → ℤ
runner_interval m =
    if ltb_ℤ (seconds m.interval_seconds) (pos 1000000000)
    then pos 1000000000
    else seconds m.interval_seconds

-- `addMonitorLocked`, and `AddMonitor` and `UpdateMonitor`.
unfoldable pub add_monitor : Monitor → List Runner → List Runner
unfolding stop_runner runner_interval
add_monitor m rs =
    let rest = stop_runner m.id rs in
    if m.enabled then record { monitor = m; interval = runner_interval m } ∷ rest else rest

abbrev pub same_ℤ : ℤ → ℤ → Bool
same_ℤ a b = leb_ℤ a b && leb_ℤ b a

-- The body of the first loop of `resyncFromDB`.
unfoldable pub sync_monitor : Monitor → List Runner → List Runner
unfolding find_runner add_monitor
sync_monitor m rs = elim (find_runner m.id rs) [
  | none ↦ add_monitor m rs
  | some r ↦
      if not (same_ℤ r.monitor.interval_seconds m.interval_seconds)
        || not (same_ℤ r.monitor.timeout_seconds m.timeout_seconds)
      then add_monitor m (stop_runner m.id rs)
      else rs
]

unfoldable pub sync_all : List Monitor → List Runner → List Runner
unfolding sync_monitor
sync_all [] rs = rs
sync_all (m ∷ ms) rs = sync_all ms (sync_monitor m rs)

abbrev pub has_monitor_id : String → Monitor → Bool
has_monitor_id i m = str_eq m.id i

-- `resyncFromDB`; a failed read changes nothing.
unfoldable pub resync_from_db : Option (List Monitor) → List Runner → List Runner
unfolding sync_all
resync_from_db none rs = rs
resync_from_db (some ms) rs = keep (λ r. any (has_monitor_id r.monitor.id) ms) (sync_all ms rs)

-- `LoadOrgMonitors` and the loop of `Start`; a failed read changes nothing.
unfoldable pub load_monitors : List Monitor → List Runner → List Runner
unfolding add_monitor
load_monitors [] rs = rs
load_monitors (m ∷ ms) rs = load_monitors ms (add_monitor m rs)

-- `dispatchCheckDue`: which of the two queues a message goes to.
unfoldable pub is_priority : ℤ → String → List Runner → Bool
unfolding find_runner or_default
is_priority threshold i rs = elim (find_runner i rs) [
  | none ↦ false
  | some r ↦ leb_ℤ r.monitor.interval_seconds (or_default threshold (pos 15))
]

-- `runCheck`: the runner's copy of the monitor, or that of the database if it is enabled.
unfoldable pub monitor_to_check : (String → Option Monitor) → String → List Runner → Option Monitor
unfolding find_runner
monitor_to_check get_by_id i rs = elim (find_runner i rs) [
  | some r ↦ some r.monitor
  | none ↦ elim (get_by_id i) [ none ↦ none | some m ↦ if m.enabled then some m else none ]
]
