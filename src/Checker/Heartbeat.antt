-- ===== src/Checker/Heartbeat.antt =====
-- internal/checker/scheduler.go: `executeHeartbeatCheck`, and `executeCheck`, which chooses.
use yip_yap_foss.Prelude.{
  ℤ, pos, ltb_ℤ, leb_ℤ, since, seconds, ◌+ℤ◌, String, Bool, true, false, Option, none, some,
  if◌then◌else◌,
}
use yip_yap_foss.Domain.Monitor.{
  Monitor, http, tcp, ping, dns, heartbeat, CheckStatus, up, down, degraded, MonitorCheck,
}
use yip_yap_foss.Checker.Model.{
  Result, Subject, alert_trigger, alert_recover, MonitorEvent, monitor_up, heartbeat_missed, World,
  Env,
}
use yip_yap_foss.Checker.Scheduler.{
  previous_status, remember, publish_alert_event, emit, emit_if, publish_if, enqueue,
  execute_active_check,
}

-- The grace period; five minutes if it is not positive.
abbrev pub grace_period : ℤ → ℤ
grace_period s = if leb_ℤ (seconds s) (pos 0) then pos 300000000000 else seconds s

abbrev bare_result : CheckStatus → String → Result
bare_result s e = record {
  status = s;
  latency_ms = pos 0;
  status_code = pos 0;
  error = e;
  metadata = "";
  tls_expiry = none;
  body = "";
  header = λ _. "";
}

-- The verdict on the last ping.
unfoldable pub heartbeat_result : Env → ℤ → Option MonitorCheck → Result
heartbeat_result env grace none = bare_result down "no heartbeat received"
heartbeat_result env grace (some p) =
    if ltb_ℤ grace (since env.now p.checked_at)
    then bare_result down (env.no_heartbeat_in grace p.checked_at)
    else bare_result up ""

abbrev pub same_status : CheckStatus → CheckStatus → Bool
same_status up up = true
same_status down down = true
same_status degraded degraded = true
same_status _ _ = false

-- Which event a change of status of a heartbeat monitor is.
unfoldable pub heartbeat_transition : CheckStatus → CheckStatus → Option Subject
heartbeat_transition up down = some alert_trigger
heartbeat_transition down up = some alert_recover
heartbeat_transition _ _ = none

-- `lastPing.CheckedAt.Add(gracePeriod)`, or now where there was no ping.
abbrev missed_event : Env → Monitor → ℤ → Option MonitorCheck → MonitorEvent
missed_event env m grace none = heartbeat_missed m.id (pos env.now) none
missed_event env m grace (some p) =
    heartbeat_missed m.id (pos p.checked_at +ℤ grace) (some p.checked_at)

unfoldable pub heartbeat_event :
    Env
    → Monitor
    → ℤ
    → Option MonitorCheck
    → CheckStatus
    → CheckStatus
    → String
    → Option MonitorEvent
heartbeat_event env m grace last up down check_id = some (missed_event env m grace last)
heartbeat_event env m grace last down up check_id = some (monitor_up m.id check_id (pos 0) env.now)
heartbeat_event env m grace last _ _ check_id = none

-- The previous status of a heartbeat monitor: with none known, the one just found.
unfoldable pub previous_heartbeat : Env → Monitor → CheckStatus → World → CheckStatus
unfolding previous_status
previous_heartbeat env m s w = elim (previous_status env m w) [ some p ↦ p | none ↦ s ]

-- `executeHeartbeatCheck`, once the last ping is read.
unfoldable pub settle_heartbeat : Env → Monitor → ℤ → Option MonitorCheck → World → World
unfolding heartbeat_result previous_heartbeat remember enqueue heartbeat_transition heartbeat_event
    emit publish_alert_event
settle_heartbeat env m grace last w =
    let r = heartbeat_result env grace last in
    let prev = previous_heartbeat env m r.status w in
    let w₁ = remember m r.status w in
    if same_status prev r.status
    then w₁
    else emit_if env (heartbeat_event env m grace last prev r.status (env.uuid w.next_uuid))
        (publish_if env (heartbeat_transition prev r.status) m r (enqueue env m r "" w₁))

-- `executeHeartbeatCheck`.
unfoldable pub execute_heartbeat_check : Env → Monitor → World → World
unfolding settle_heartbeat
execute_heartbeat_check env m w = elim (env.grace_period_seconds m.config) [
  | none ↦ w
  | some s ↦ elim (env.get_latest_heartbeat_ping m.id) [
    | none ↦ w
    | some last ↦ settle_heartbeat env m (grace_period s) last w
  ]
]

-- `executeCheck`; every type but the heartbeat has a checker.
unfoldable pub execute_check : Env → Monitor → World → World
unfolding execute_active_check execute_heartbeat_check
execute_check env m w = elim m.type [
  | heartbeat ↦ execute_heartbeat_check env m w
  | http ↦ execute_active_check env m w
  | tcp ↦ execute_active_check env m w
  | ping ↦ execute_active_check env m w
  | dns ↦ execute_active_check env m w
]
