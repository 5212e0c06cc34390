-- ===== src/Escalation/Handlers.antt =====
-- internal/escalation/engine.go: `handleTrigger`, `handleRecover`, `handleAck`. A handler returns
-- the error that naks its message, or `none`, and the world it leaves behind. A payload that does
-- not unmarshal is `none`.
use yip_yap_foss.Prelude.{
  ℕ, zero, suc, pos, negsuc, String, Option, none, some, List, [], ◌∷◌, length, is_blank,
  if◌then◌else◌,
}
use yip_yap_foss.Domain.Alert.{
  Alert, AlertStatus, firing, acknowledged, resolved, AlertEscalationState, blank, triggered, ack,
  resolved_event, severity_critical, severity_warning,
}
use yip_yap_foss.Domain.Monitor.{Monitor, CheckStatus, up, down, degraded}
use yip_yap_foss.Domain.Escalation.{EscalationStep}
use yip_yap_foss.Domain.Notification.{AckEvent}
use yip_yap_foss.Store.Alerts.{create, get_by_id, get_active_by_monitor, update, delete_state}
use yip_yap_foss.Store.Policies.{get_steps}
use yip_yap_foss.Escalation.World.{
  Env, World, alert_fired, alert_resolved, alert_acknowledged, take_uuid, create_event, emit,
  add_active_alert,
}
use yip_yap_foss.Escalation.Notify.{notify_step, save_state}

pub data HandlerError : Type 0 where
  bad_payload monitor_lookup alert_lookup update_failed upsert_failed : HandlerError

abbrev pub Outcome : Type 0
Outcome = Option HandlerError × World

-- `AlertTriggerEvent`, the fields that the handlers read.
pub record AlertTriggerEvent : Type 0 where
  pub monitor_id : String
  pub status : CheckStatus
  pub error : String

abbrev or_default : String → String → String
or_default s d = if is_blank s then d else s

-- The severity that the monitor is configured with for the status.
unfoldable pub trigger_severity : Monitor → CheckStatus → String
trigger_severity m degraded = or_default m.degraded_severity severity_warning
trigger_severity m up = or_default m.down_severity severity_critical
trigger_severity m down = or_default m.down_severity severity_critical

-- `GetActiveByMonitor`; an error of the read and no row are both `none`.
unfoldable pub read_active : Env → String → World → Option Alert
read_active env m w = if env.read_active_ok then get_active_by_monitor m w.alerts else none

-- `Alerts().Update`.
unfoldable pub update_alert : Env → Alert → World → Option World
update_alert env a w =
    if env.update_ok a
    then elim (update a w.alerts) [ none ↦ none | some rows ↦ some (record w { alerts = rows }) ]
    else none

-- `_ = Alerts().Update`.
unfoldable pub try_update : Env → Alert → World → World
unfolding update_alert
try_update env a w = elim (update_alert env a w) [ none ↦ w | some w' ↦ w' ]

-- `GetSteps`, with the first step apart; no steps and an error are both `none`.
unfoldable pub read_steps : Env → String → Option (EscalationStep × List EscalationStep)
read_steps env policy =
    if env.steps_ok
    then elim (get_steps policy env.steps) [ [] ↦ none | s ∷ ss ↦ some (s, s ∷ ss) ]
    else none

-- The end of `handleTrigger`: enter the first step and notify it.
unfoldable pub start_escalation : Env → Alert → Monitor → EscalationStep → World → Outcome
unfolding try_update
start_escalation env alert monitor step w =
    let alert' : Alert = record alert { current_escalation_step = step.id } in
    let state : AlertEscalationState = record {
      alert_id = alert.id;
      current_step_id = step.id;
      step_entered_at = env.now;
      retry_count = 0;
      last_notified_at = none;
      notifications_sent = blank;
    } in
    let w' = try_update env alert' w in
    if env.upsert_ok state
    then (none, notify_step env alert' monitor step state (save_state env state w'))
    else (some upsert_failed, w')

-- What follows the creation of the alert.
unfoldable pub after_create : Env → Alert → Monitor → World → Outcome
unfolding start_escalation read_steps
after_create env alert monitor w =
    if monitor.muted
    then (none, w)
    else if is_blank monitor.escalation_policy_id
    then (none, w)
    else elim (read_steps env monitor.escalation_policy_id) [
      | none ↦ (none, w)
      | some (step, _) ↦ start_escalation env alert monitor step w
    ]

-- The alert that `handleTrigger` builds.
unfoldable pub new_alert : Env → AlertTriggerEvent → Monitor → String → Alert
unfolding trigger_severity
new_alert env evt monitor alert_id = record {
  id = alert_id;
  monitor_id = evt.monitor_id;
  org_id = monitor.org_id;
  status = firing;
  severity = trigger_severity monitor evt.status;
  error = evt.error;
  started_at = env.now;
  acknowledged_at = none;
  acknowledged_by = "";
  resolved_at = none;
  current_escalation_step = "";
  incident_id = "";
}

-- `Alerts().Create`.
unfoldable pub create_alert : Env → Alert → World → Option World
create_alert env a w =
    if env.create_ok a
    then elim (create a w.alerts) [ none ↦ none | some rows ↦ some (record w { alerts = rows }) ]
    else none

-- The gauge, the event and the CloudEvent of an alert that was just created.
unfoldable pub announce_fired : Env → Alert → World → World
announce_fired env a w =
    emit env (alert_fired a.org_id a.id a.monitor_id a.severity a.error a.started_at)
      (create_event env a.id triggered "" "" (add_active_alert env a.org_id (pos 1) w))

-- `handleTrigger`, once the monitor is known.
unfoldable pub trigger_monitor : Env → AlertTriggerEvent → Monitor → World → Outcome
unfolding read_active new_alert create_alert announce_fired after_create take_uuid
trigger_monitor env evt monitor w = elim (read_active env evt.monitor_id w) [
  | some existing ↦ (none, w)
  | none ↦
      let alert = new_alert env evt monitor (env.uuid w.next_uuid) in
      elim (create_alert env alert (take_uuid w)) [
        | none ↦ (none, take_uuid w)
        | some w' ↦ after_create env alert monitor (announce_fired env alert w')
      ]
]

-- `handleTrigger`.
unfoldable pub handle_trigger : Env → Option AlertTriggerEvent → World → Outcome
unfolding trigger_monitor
handle_trigger env none w = (some bad_payload, w)
handle_trigger env (some evt) w = elim (env.get_monitor evt.monitor_id) [
  | none ↦ (some monitor_lookup, w)
  | some monitor ↦ trigger_monitor env evt monitor w
]

-- Gauge, state row, event and CloudEvent of an alert that was just resolved.
unfoldable pub announce_resolved : Env → Alert → World → World
announce_resolved env a w =
    let w₁ = add_active_alert env a.org_id (negsuc 0) w in
    let w₂ =
      if env.delete_ok a.id then record w₁ { states = delete_state a.id w₁.states } else w₁ in
    emit env (alert_resolved a.org_id a.id a.monitor_id env.now)
      (create_event env a.id resolved_event "" "" w₂)

-- Marks one alert resolved; `none` if the update fails. `handleRecover` and each round of
-- `autoResolveAlerts` do this.
unfoldable pub resolve_alert : Env → Alert → World → Option World
unfolding update_alert announce_resolved
resolve_alert env a w =
    elim (update_alert env (record a { status = resolved; resolved_at = some env.now }) w) [
      | none ↦ none
      | some w' ↦ some (announce_resolved env a w')
    ]

-- The loop of `autoResolveAlerts`, on fuel.
unfoldable pub auto_resolve : ℕ → Env → Monitor → World → World
unfolding read_active resolve_alert
auto_resolve zero env m w = w
auto_resolve (suc fuel) env m w = elim (read_active env m.id w) [
  | none ↦ w
  | some a ↦ elim (resolve_alert env a w) [ none ↦ w | some w' ↦ auto_resolve fuel env m w' ]
]

-- `autoResolveAlerts`: one round for each row is enough.
unfoldable pub auto_resolve_alerts : Env → Monitor → World → World
unfolding auto_resolve
auto_resolve_alerts env m w = auto_resolve (suc (length w.alerts)) env m w

-- The end of `handleRecover`; `maybeAutoResolveIncident` does nothing in this build.
unfoldable pub finish_recover : Env → AlertTriggerEvent → World → World
unfolding auto_resolve_alerts
finish_recover env evt w = elim (env.get_monitor evt.monitor_id) [
  | none ↦ w
  | some m ↦ if m.auto_resolve then auto_resolve_alerts env m w else w
]

-- `handleRecover`.
unfoldable pub handle_recover : Env → Option AlertTriggerEvent → World → Outcome
unfolding read_active resolve_alert finish_recover
handle_recover env none w = (some bad_payload, w)
handle_recover env (some evt) w = elim (read_active env evt.monitor_id w) [
  | none ↦ (none, w)
  | some a ↦ elim (resolve_alert env a w) [
    | none ↦ (some update_failed, w)
    | some w' ↦ (none, finish_recover env evt w')
  ]
]

-- The alert as `handleAck` marks it.
unfoldable pub acked : Env → AckEvent → Alert → Alert
acked env evt a = record a {
  status = acknowledged;
  acknowledged_at = some env.now;
  acknowledged_by = evt.user_id;
}

-- `handleAck`, once the alert is found not to be resolved.
unfoldable pub ack_alert : Env → AckEvent → Alert → World → Outcome
unfolding acked update_alert
ack_alert env evt a w = elim (update_alert env (acked env evt a) w) [
  | none ↦ (some update_failed, w)
  | some w' ↦ (
    none,
    emit env (alert_acknowledged a.org_id a.id a.monitor_id evt.user_id env.now)
        (create_event env a.id ack evt.channel evt.user_id w'),
  )
]

-- The test of the status; an alert that is resolved stays so.
unfoldable pub ack_unless_resolved : AlertStatus → Env → AckEvent → Alert → World → Outcome
unfolding ack_alert
ack_unless_resolved resolved env evt a w = (none, w)
ack_unless_resolved firing env evt a w = ack_alert env evt a w
ack_unless_resolved acknowledged env evt a w = ack_alert env evt a w

-- `GetByID`; an error of the read and no row are both `none`.
unfoldable pub read_alert : Env → String → World → Option Alert
read_alert env i w = if env.get_alert_ok then get_by_id i w.alerts else none

-- `handleAck`.
unfoldable pub handle_ack : Env → Option AckEvent → World → Outcome
unfolding ack_unless_resolved read_alert
handle_ack env none w = (some bad_payload, w)
handle_ack env (some evt) w = elim (read_alert env evt.alert_id w) [
  | none ↦ (some alert_lookup, w)
  | some a ↦ ack_unless_resolved a.status env evt a w
]
