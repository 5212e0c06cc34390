-- ===== src/Escalation/Alerting.antt =====
-- internal/escalation/engine.go: the alert that `handleTrigger` raises, and its severity.
use yip_yap_foss.Prelude.{
  String, true, false, ◌≡◌, ◌≢◌, refl, sym, subst, inl, inr, Option, none, some, List, [], ◌∷◌,
  arith, Bool-cases, Option-cases, str_eq_refl, is_blank, any, if_rule,
}
use yip_yap_foss.Domain.Alert.{Alert, AlertStatus, firing, AlertEscalationState, blank}
use text.Mathlib.TextEquality.{eq_iff}
use yip_yap_foss.Domain.Monitor.{Monitor, CheckStatus, up, down, degraded}
use yip_yap_foss.Domain.Escalation.{EscalationStep}
use yip_yap_foss.Store.Alerts.{get_by_id, get_active_by_monitor, updated_row, has_id, create}
use yip_yap_foss.Store.AlertLaws.{get_by_id-replace_row, any-get_active_none}
use yip_yap_foss.Store.Time.{stored_time, stored_optional}
use yip_yap_foss.Escalation.World.{Env, World, take_uuid}
use yip_yap_foss.Escalation.Notify.{save_state}
use yip_yap_foss.Escalation.Handlers.{
  AlertTriggerEvent, Outcome, trigger_severity, read_active, new_alert, create_alert,
  announce_fired, after_create, start_escalation, trigger_monitor, handle_trigger, update_alert,
  read_steps, try_update,
}
use yip_yap_foss.Escalation.Frames.{notify_step-SameAlerts, save_state-SameAlerts}
use yip_yap_foss.Escalation.Gauge.{update_alert_eq}
use yip_yap_foss.Escalation.Created.{announce_fired-alerts}

-- The status of a row under the updates and writes that leave it alone.
abbrev pub HasRow : String → AlertStatus → String → World → Type 0
HasRow i s sev w =
    (row : Alert) × (get_by_id i w.alerts ≡ some row) × (row.status ≡ s) × (row.severity ≡ sev)

try_update-HasRow :
    (env : Env) (a : Alert) (w : World)
    → HasRow a.id a.status a.severity w
    → HasRow a.id a.status a.severity (try_update env a w)
unfolding try_update
try_update-HasRow env a w (row, found, is, sev) = elim (Option-cases (update_alert env a w)) [
  | inl e ↦ rw (e, try_update) (row, found, is, sev)
  | inr (w', e) ↦
      let (_, _, eq, _) = update_alert_eq env a w w' e in
      rw (e, eq, try_update)
        (updated_row a row, get_by_id-replace_row a w.alerts row found, refl, refl)
]

start_escalation-HasRow :
    (env : Env) (a : Alert) (m : Monitor) (s : EscalationStep) (w : World)
    → HasRow a.id a.status a.severity w
    → HasRow a.id a.status a.severity (start_escalation env a m s w).1
unfolding start_escalation
start_escalation-HasRow env a m s w h =
    let a' : Alert = record a { current_escalation_step = s.id } in
    let st : AlertEscalationState = record {
      alert_id = a.id;
      current_step_id = s.id;
      step_entered_at = env.now;
      retry_count = 0;
      last_notified_at = none;
      notifications_sent = blank;
    } in
    let moved = try_update-HasRow env a' w h in
    let u = try_update env a' w in
    elim (Bool-cases (env.upsert_ok st)) [
      | inl ok ↦
          rw
            (
              ok,
              (notify_step-SameAlerts env a' m s st (save_state env st u)).alerts,
              (save_state-SameAlerts env st u).alerts,
            )
            moved
      | inr failed ↦ rw failed moved
    ]

any_id-none :
    (i : String) (rows : List Alert) → get_by_id i rows ≡ none → any (has_id i) rows ≡ false
unfolding get_by_id
any_id-none i [] h = refl
any_id-none i (a ∷ rows) h = ground (arith, any_id-none i rows)

after_create-HasRow :
    (env : Env) (a : Alert) (m : Monitor) (w : World)
    → HasRow a.id a.status a.severity w
    → HasRow a.id a.status a.severity (after_create env a m w).1
unfolding after_create
after_create-HasRow env a m w h =
    if_rule (λ (o : Outcome). HasRow a.id a.status a.severity o.1) m.muted h
      (if_rule (λ (o : Outcome). HasRow a.id a.status a.severity o.1)
        (is_blank m.escalation_policy_id) h (by_steps (read_steps env m.escalation_policy_id)))
  where
    by_steps :
        (r : Option (EscalationStep × List EscalationStep))
        → HasRow a.id a.status a.severity
            (let o : Outcome = elim r [
              | none ↦ (none, w)
              | some (step, _) ↦ start_escalation env a m step w
            ] in
              o).1
    by_steps none = h
    by_steps (some (s, ss)) = start_escalation-HasRow env a m s w h

create-HasRow :
    (env : Env) (a : Alert) (w : World)
    → env.create_ok a ≡ true
    → get_by_id a.id w.alerts ≡ none
    → get_active_by_monitor a.monitor_id w.alerts ≡ none
    → (w' : World) × (create_alert env a w ≡ some w')
      × HasRow a.id a.status a.severity (announce_fired env a w')
unfolding create_alert create get_by_id
create-HasRow env a w ok new clear =
    let stored : Alert = record a {
      started_at = stored_time a.started_at;
      acknowledged_at = stored_optional a.acknowledged_at;
      resolved_at = stored_optional a.resolved_at;
    } in
    let fresh = any_id-none a.id w.alerts (unfold get_by_id in new) in
    let alone = any-get_active_none a.monitor_id w.alerts clear in
    let w' : World = record w { alerts = stored ∷ w.alerts } in
    (
      w',
      ground (arith, fresh, alone, ok),
      (stored, ground (arith, announce_fired-alerts env a w', str_eq_refl a.id), refl, refl),
    )

trigger-HasRow :
    (env : Env) (evt : AlertTriggerEvent) (m : Monitor) (w : World)
    → env.get_monitor evt.monitor_id ≡ some m
    → get_active_by_monitor evt.monitor_id w.alerts ≡ none
    → get_by_id (env.uuid w.next_uuid) w.alerts ≡ none
    → env.create_ok (new_alert env evt m (env.uuid w.next_uuid)) ≡ true
    → HasRow
        (env.uuid w.next_uuid)
        firing
        (trigger_severity m evt.status)
        (handle_trigger env (some evt) w).1
unfolding handle_trigger trigger_monitor
trigger-HasRow env evt m w known clear new ok =
    let a = new_alert env evt m (env.uuid w.next_uuid) in
    let (w', made, row) = create-HasRow env a (take_uuid w) ok new clear in
    let quiet : read_active env evt.monitor_id w ≡ none =
      unfold read_active in ground (arith, clear) in
    rw (known, quiet, made, handle_trigger, trigger_monitor)
      (after_create-HasRow env a m (announce_fired env a w') row)

-- The severity of an alert for a status: that of the monitor's settings, or a default where the setting is empty.
abbrev pub HasSeverity : Monitor → CheckStatus → String → Type 0
HasSeverity m status sev =
    (status ≡ degraded → m.degraded_severity ≢ "" → sev ≡ m.degraded_severity)
    × (status ≡ degraded → m.degraded_severity ≡ "" → sev ≡ "warning")
    × (status ≢ degraded → m.down_severity ≢ "" → sev ≡ m.down_severity)
    × (status ≢ degraded → m.down_severity ≡ "" → sev ≡ "critical")

trigger_severity-HasSeverity :
    (m : Monitor) (status : CheckStatus) → HasSeverity m status (trigger_severity m status)
unfolding trigger_severity
trigger_severity-HasSeverity m degraded = (
  λ is set. ground (arith, eq_iff m.degraded_severity ""),
  λ is unset. ground (arith, eq_iff m.degraded_severity ""),
  λ other. absurd (other refl),
  λ other. absurd (other refl),
)
trigger_severity-HasSeverity m up = (
  λ is. ground (arith, is),
  λ is. ground (arith, is),
  λ other set. ground (arith, eq_iff m.down_severity ""),
  λ other unset. ground (arith, eq_iff m.down_severity ""),
)
trigger_severity-HasSeverity m down = (
  λ is. ground (arith, is),
  λ is. ground (arith, is),
  λ other set. ground (arith, eq_iff m.down_severity ""),
  λ other unset. ground (arith, eq_iff m.down_severity ""),
)

-- The row of an alert that a trigger raised.
abbrev pub IsRaised : String → AlertTriggerEvent → Monitor → World → Type 0
IsRaised i evt m w =
    (row : Alert) × (get_by_id i w.alerts ≡ some row)
    × (row.status ≡ firing)
    × HasSeverity m evt.status row.severity

-- A trigger of a known monitor with no active alert, whose new identifier is unused and whose alert is
-- created, leaves a firing alert under that identifier, whether or not the monitor is muted, has a policy, or the
-- escalation could be started. For `degraded` its severity is the monitor's degraded severity, or `warning` if that is
-- empty; for any other status the down severity, or `critical`.
pub handle_trigger_fires :
    (env : Env) (evt : AlertTriggerEvent) (m : Monitor) (w : World)
    → env.get_monitor evt.monitor_id ≡ some m
    → get_active_by_monitor evt.monitor_id w.alerts ≡ none
    → get_by_id (env.uuid w.next_uuid) w.alerts ≡ none
    → env.create_ok (new_alert env evt m (env.uuid w.next_uuid)) ≡ true
    → IsRaised (env.uuid w.next_uuid) evt m (handle_trigger env (some evt) w).1
handle_trigger_fires env evt m w known clear new ok =
    let (row, found, is, sev) = raised in
    (
      row,
      found,
      is,
      subst (HasSeverity m evt.status) (sym sev) (trigger_severity-HasSeverity m evt.status),
    )
  where
    raised :
        HasRow
          (env.uuid w.next_uuid)
          firing
          (trigger_severity m evt.status)
          (handle_trigger env (some evt) w).1
    raised = trigger-HasRow env evt m w known clear new ok
