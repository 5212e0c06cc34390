-- ===== src/Escalation/Frames.antt =====
-- internal/escalation/engine.go: the parts of the engine that do not write the table of alerts.
use yip_yap_foss.Prelude.{
  String, ◌≡◌, refl, ◌∙◌, inl, inr, List, [], ◌∷◌, some, arith, Option-cases,
}
use yip_yap_foss.Domain.Alert.{Alert, AlertEventType, AlertEscalationState}
use yip_yap_foss.Domain.Monitor.{Monitor}
use yip_yap_foss.Domain.Escalation.{EscalationStep, StepTarget}
use yip_yap_foss.Domain.Notification.{NotificationChannel, NotificationJob}
use yip_yap_foss.Escalation.World.{Env, World, CloudEvent, take_uuid, create_event, emit}
use yip_yap_foss.Escalation.Notify.{
  sendable, send_job, make_job, notify_users, notify_targets, save_state, notify_step,
}

-- The alert table and the gauge are as before.
pub record SameAlerts (w w' : World) : Type 0 where
  pub alerts : w'.alerts ≡ w.alerts
  pub gauge : w'.active_gauge ≡ w.active_gauge

pub SameAlerts-trans : {u v w : World} → SameAlerts u v → SameAlerts v w → SameAlerts u w
SameAlerts-trans p q = record { alerts = q.alerts ∙ p.alerts; gauge = q.gauge ∙ p.gauge }

pub create_event-SameAlerts :
    (env : Env) (id : String) (t : AlertEventType) (ch u : String) (w : World)
    → SameAlerts w (create_event env id t ch u w)
unfolding create_event
create_event-SameAlerts env id t ch u w = ground arith

pub emit-SameAlerts : (env : Env) (ce : CloudEvent) (w : World) → SameAlerts w (emit env ce w)
unfolding emit
emit-SameAlerts env ce w = ground arith

pub save_state-SameAlerts :
    (env : Env) (s : AlertEscalationState) (w : World) → SameAlerts w (save_state env s w)
unfolding save_state
save_state-SameAlerts env s w = ground arith

send_job-SameAlerts :
    (env : Env) (a : Alert) (ch u : String) (job : NotificationJob) (w : World)
    → SameAlerts w (send_job env a ch u job w)
unfolding send_job
send_job-SameAlerts env a ch u job w = ground arith

notify_users-SameAlerts :
    (env : Env) (a : Alert) (m : Monitor) (s : EscalationStep) (ch : NotificationChannel)
    (config : String) (us : List String) (w : World)
    → SameAlerts w (notify_users env a m s ch config us w)
unfolding notify_users
notify_users-SameAlerts env a m s ch config [] w = record { alerts = refl; gauge = refl }
notify_users-SameAlerts env a m s ch config (u ∷ us) w =
    let job = make_job env a m s ch config u (env.uuid w.next_uuid) in
    let first = send_job-SameAlerts env a ch.type u job (take_uuid w) in
    let next = send_job env a ch.type u job (take_uuid w) in
    let rest = notify_users-SameAlerts env a m s ch config us next in
    record { alerts = rest.alerts ∙ first.alerts; gauge = rest.gauge ∙ first.gauge }

notify_targets-SameAlerts :
    (env : Env) (a : Alert) (m : Monitor) (s : EscalationStep) (ts : List StepTarget) (w : World)
    → SameAlerts w (notify_targets env a m s ts w)
unfolding notify_targets
notify_targets-SameAlerts env a m s [] w = record { alerts = refl; gauge = refl }
notify_targets-SameAlerts env a m s (t ∷ ts) w = elim (Option-cases (sendable env m t)) [
  | inl e ↦ rw (e, notify_targets) (notify_targets-SameAlerts env a m s ts w)
  | inr ((us, ch, config), e) ↦
      rw (e, notify_targets)
        (SameAlerts-trans (notify_users-SameAlerts env a m s ch config us w)
          (notify_targets-SameAlerts env a m s ts _))
]

pub notify_step-SameAlerts :
    (env : Env) (a : Alert) (m : Monitor) (s : EscalationStep) (st : AlertEscalationState)
    (w : World)
    → SameAlerts w (notify_step env a m s st w)
unfolding notify_step
notify_step-SameAlerts env a m s st w = elim (Option-cases (env.get_targets s.id)) [
  | inl e ↦ ground arith
  | inr (ts, e) ↦
      let st' : AlertEscalationState = record st { last_notified_at = some env.now } in
      let saved = save_state env st' w in
      ground (arith, save_state-SameAlerts env st' w, notify_targets-SameAlerts env a m s ts saved)
]
