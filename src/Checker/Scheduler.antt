-- ===== src/Checker/Scheduler.antt =====
-- internal/checker/scheduler.go: the second half of `executeCheck`. A status that is not known is
-- `none` where the code has the empty text.
use yip_yap_foss.Prelude.{
  suc, String, true, Option, none, some, List, [], ◌∷◌, str_eq, is_blank, if◌then◌else◌,
}
use yip_yap_foss.Domain.Monitor.{Monitor, CheckStatus, up, down, degraded, MonitorCheck}
use yip_yap_foss.Checker.Model.{
  Result, Subject, alert_trigger, alert_recover, AlertEvent, Published, MonitorEvent, monitor_up,
  monitor_down, monitor_degraded, World, Env,
}
use yip_yap_foss.Checker.Judge.{judge}

-- `lastStatus[id]`.
unfoldable pub known_status : String → List (String × CheckStatus) → Option CheckStatus
known_status i [] = none
known_status i ((j, s) ∷ rest) = if str_eq j i then some s else known_status i rest

abbrev status_of_latest : Option MonitorCheck → Option CheckStatus
status_of_latest none = none
status_of_latest (some c) = some c.status

-- The previous status: the cached one, or the latest in the database.
unfoldable pub previous_status : Env → Monitor → World → Option CheckStatus
unfolding known_status
previous_status env m w = elim (known_status m.id w.last_status) [
  | some s ↦ some s
  | none ↦ status_of_latest (env.seed_latest m.id)
]

unfoldable pub remember : Monitor → CheckStatus → World → World
remember m s w = record w { last_status = (m.id, s) ∷ w.last_status }

-- `publishAlertEvent`.
unfoldable pub publish_alert_event : Env → Subject → Monitor → Result → World → World
publish_alert_event env subject m r w =
    let event : AlertEvent = record {
      org_id = m.org_id;
      monitor_id = m.id;
      monitor_name = m.name;
      status = r.status;
      latency_ms = r.latency_ms;
      status_code = r.status_code;
      error = r.error;
      checked_at = env.now;
    } in
    let message : Published = record { subject = subject; event = event; delivered = true } in
    record w { published = record message { delivered = env.publish_ok message } ∷ w.published }

-- Which event a change of status is: the three tests at the end of `executeCheck`.
unfoldable pub transition : Option CheckStatus → CheckStatus → Option Subject
transition (some up) down = some alert_trigger
transition (some up) degraded = some alert_trigger
transition (some degraded) down = some alert_trigger
transition (some down) up = some alert_recover
transition (some degraded) up = some alert_recover
transition _ _ = none

unfoldable pub emit : Env → MonitorEvent → World → World
emit env e w =
    if env.has_emitter then if env.emit_ok e then record w { emitted = e ∷ w.emitted } else w else w

abbrev or_text : String → String → String
or_text s d = if is_blank s then d else s

-- `emitMonitorTransition`: the CloudEvent of a change of status.
unfoldable pub transition_event :
    Env → Monitor → Result → Option CheckStatus → String → Option MonitorEvent
transition_event env m r prev check_id = elim r.status [
  | up ↦ elim prev [
    | some down ↦ some (monitor_up m.id check_id r.latency_ms env.now)
    | some degraded ↦ some (monitor_up m.id check_id r.latency_ms env.now)
    | _ ↦ none
  ]
  | down ↦ elim prev [
    | some up ↦ some (monitor_down m.id check_id (or_text r.error "unknown") env.now)
    | some degraded ↦ some (monitor_down m.id check_id (or_text r.error "unknown") env.now)
    | _ ↦ none
  ]
  | degraded ↦ elim prev [
    | some degraded ↦ none
    | _ ↦ some (monitor_degraded m.id check_id (or_text r.error "degraded") env.now)
  ]
]

abbrev pub emit_if : Env → Option MonitorEvent → World → World
emit_if env none w = w
emit_if env (some e) w = emit env e w

abbrev pub publish_if : Env → Option Subject → Monitor → Result → World → World
publish_if env none m r w = w
publish_if env (some s) m r w = publish_alert_event env s m r w

-- `s.bw.Enqueue(check)`.
unfoldable pub enqueue : Env → Monitor → Result → String → World → World
enqueue env m r state_id w =
    let check : MonitorCheck = record {
      id = env.uuid w.next_uuid;
      monitor_id = m.id;
      status = r.status;
      latency_ms = r.latency_ms;
      status_code = r.status_code;
      error = r.error;
      metadata = r.metadata;
      tls_expiry = r.tls_expiry;
      checked_at = env.now;
      matched_state_id = state_id;
    } in
    record w { enqueued = check ∷ w.enqueued; next_uuid = suc w.next_uuid }

-- `executeCheck` of a monitor that is checked actively.
unfoldable pub execute_active_check : Env → Monitor → World → World
unfolding judge previous_status remember publish_alert_event transition emit transition_event
    enqueue
execute_active_check env m w =
    let (r, state_id) = judge env m in
    let prev = previous_status env m w in
    let w₁ = remember m r.status (enqueue env m r state_id w) in
    emit_if env (transition_event env m r prev (env.uuid w.next_uuid))
      (publish_if env (transition prev r.status) m r w₁)
