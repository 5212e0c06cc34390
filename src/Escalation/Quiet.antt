-- ===== src/Escalation/Quiet.antt =====
-- internal/escalation/engine.go: a turn of `processFiringAlerts` as another alert sees it.
use yip_yap_foss.Prelude.{
  String, ◌≡◌, ◌≢◌, refl, sym, ◌∙◌, inl, inr, some, List, [], ◌∷◌, arith, Option-cases, All, keep,
  str_eq, eq_of_str_eq, first_holds,
}
use text.Mathlib.TextEquality.{eq_iff}
use yip_yap_foss.Domain.Alert.{Alert, AlertEventType, AlertEscalationState}
use yip_yap_foss.Domain.Monitor.{Monitor}
use yip_yap_foss.Domain.Escalation.{EscalationStep, StepTarget}
use yip_yap_foss.Domain.Notification.{NotificationChannel, NotificationJob}
use yip_yap_foss.Store.Alerts.{get_escalation_state, upsert_state, state_of}
use yip_yap_foss.Escalation.World.{
  Env, World, Sent, CloudEvent, take_uuid, create_event, emit, record_escalation_step,
}
use yip_yap_foss.Escalation.Notify.{
  sendable, send_job, make_job, notify_users, notify_targets, save_state, notify_step,
}
use yip_yap_foss.Escalation.Handlers.{try_update, update_alert}
use yip_yap_foss.Escalation.Tick.{
  Due, retry, advance, restart, decide, enter_step, apply, process_alert, process_all, read_state,
}

-- The notifications that were sent for an alert.
abbrev pub sent_for : String → List Sent → List Sent
sent_for i sent = keep (λ s. str_eq s.job.alert_id i) sent

-- The alert's escalation state and its notifications are as before.
pub record IsQuiet (i : String) (w w' : World) : Type 0 where
  pub state : get_escalation_state i w'.states ≡ get_escalation_state i w.states
  pub sent : sent_for i w'.sent ≡ sent_for i w.sent

pub IsQuiet-refl : (i : String) (w : World) → IsQuiet i w w
IsQuiet-refl i w = record { state = refl; sent = refl }

IsQuiet-trans : {i : String} {u v w : World} → IsQuiet i u v → IsQuiet i v w → IsQuiet i u w
IsQuiet-trans p q = record { state = q.state ∙ p.state; sent = q.sent ∙ p.sent }

upsert_state_ne :
    (i : String) (s : AlertEscalationState) (ss : List AlertEscalationState)
    → s.alert_id ≢ i
    → get_escalation_state i (upsert_state s ss) ≡ get_escalation_state i ss
unfolding get_escalation_state upsert_state
upsert_state_ne i s [] h = ground (arith, eq_iff s.alert_id i)
upsert_state_ne i s (t ∷ ts) h = ground (
  arith,
  eq_iff s.alert_id i,
  eq_iff t.alert_id i,
  eq_iff t.alert_id s.alert_id,
  upsert_state_ne i s ts h,
)

module _ (env : Env) (i : String) where
  save_state-IsQuiet :
      (s : AlertEscalationState) (w : World) → s.alert_id ≢ i → IsQuiet i w (save_state env s w)
  unfolding save_state
  save_state-IsQuiet s w h = ground (arith, upsert_state_ne i s w.states h)

  create_event-IsQuiet :
      (id : String) (t : AlertEventType) (ch u : String) (w : World)
      → IsQuiet i w (create_event env id t ch u w)
  unfolding create_event
  create_event-IsQuiet id t ch u w = ground arith

  emit-IsQuiet : (ce : CloudEvent) (w : World) → IsQuiet i w (emit env ce w)
  unfolding emit
  emit-IsQuiet ce w = ground arith

  try_update-IsQuiet : (a : Alert) (w : World) → IsQuiet i w (try_update env a w)
  unfolding try_update update_alert
  try_update-IsQuiet a w = ground arith

  send_job-IsQuiet :
      (a : Alert) (ch u : String) (job : NotificationJob) (w : World)
      → job.alert_id ≢ i
      → IsQuiet i w (send_job env a ch u job w)
  unfolding send_job
  send_job-IsQuiet a ch u job w h = ground (arith, eq_iff job.alert_id i)

  notify_users-IsQuiet :
      (a : Alert) (m : Monitor) (s : EscalationStep) (ch : NotificationChannel) (config : String)
      (us : List String) (w : World)
      → a.id ≢ i
      → IsQuiet i w (notify_users env a m s ch config us w)
  unfolding notify_users
  notify_users-IsQuiet a m s ch config [] w h = IsQuiet-refl i w
  notify_users-IsQuiet a m s ch config (u ∷ us) w h =
      let job = make_job env a m s ch config u (env.uuid w.next_uuid) in
      let sends = send_job-IsQuiet a ch.type u job (take_uuid w) (unfold make_job in h) in
      let rest =
        notify_users-IsQuiet a m s ch config us (send_job env a ch.type u job (take_uuid w)) h in
      record { state = rest.state ∙ sends.state; sent = rest.sent ∙ sends.sent }

  notify_targets-IsQuiet :
      (a : Alert) (m : Monitor) (s : EscalationStep) (ts : List StepTarget) (w : World)
      → a.id ≢ i
      → IsQuiet i w (notify_targets env a m s ts w)
  unfolding notify_targets
  notify_targets-IsQuiet a m s [] w h = IsQuiet-refl i w
  notify_targets-IsQuiet a m s (t ∷ ts) w h = elim (Option-cases (sendable env m t)) [
    | inl e ↦ rw (e, notify_targets) (notify_targets-IsQuiet a m s ts w h)
    | inr ((us, ch, config), e) ↦
        rw (e, notify_targets)
          (IsQuiet-trans (notify_users-IsQuiet a m s ch config us w h)
            (notify_targets-IsQuiet a m s ts _ h))
  ]

  notify_step-IsQuiet :
      (a : Alert) (m : Monitor) (s : EscalationStep) (st : AlertEscalationState) (w : World)
      → a.id ≢ i
      → st.alert_id ≢ i
      → IsQuiet i w (notify_step env a m s st w)
  unfolding notify_step
  notify_step-IsQuiet a m s st w h k = elim (Option-cases (env.get_targets s.id)) [
    | inl e ↦ ground arith
    | inr (ts, e) ↦
        let st' : AlertEscalationState = record st { last_notified_at = some env.now } in
        ground (
          arith,
          save_state-IsQuiet st' w k,
          notify_targets-IsQuiet a m s ts (save_state env st' w) h,
        )
  ]

  enter_step-IsQuiet :
      (a : Alert) (m : Monitor) (s : EscalationStep) (st : AlertEscalationState) (w : World)
      → a.id ≢ i
      → st.alert_id ≢ i
      → IsQuiet i w (enter_step env a m s st w)
  unfolding enter_step
  enter_step-IsQuiet a m s st w h k = IsQuiet-trans (save_state-IsQuiet st w k) (
      IsQuiet-trans (try_update-IsQuiet _ _) (
        IsQuiet-trans (create_event-IsQuiet a.id _ "" "" _)
          (IsQuiet-trans (emit-IsQuiet _ _) (notify_step-IsQuiet _ m s st _ h k))))

  apply-IsQuiet :
      (a : Alert) (m : Monitor) (st : AlertEscalationState) (due : Due) (w : World)
      → a.id ≢ i
      → st.alert_id ≢ i
      → IsQuiet i w (apply env a m st due w)
  unfolding apply record_escalation_step
  apply-IsQuiet a m st (retry s) w h k =
      IsQuiet-trans (save_state-IsQuiet _ w k) (notify_step-IsQuiet a m s _ _ h k)
  apply-IsQuiet a m st (advance s) w h k =
      let recorded : IsQuiet i w (record_escalation_step env a.org_id s.position w) =
        ground arith in
      IsQuiet-trans recorded (enter_step-IsQuiet a m s _ _ h k)
  apply-IsQuiet a m st (restart s n) w h k = enter_step-IsQuiet a m s _ w h k

  process_alert-IsQuiet : (a : Alert) (w : World) → a.id ≢ i → IsQuiet i w (process_alert env a w)
  unfolding process_alert get_escalation_state
  process_alert-IsQuiet a w h = elim (Option-cases (read_state env a.id w)) [
    | inl e ↦ rw (e, process_alert) (IsQuiet-refl i w)
    | inr (st, e) ↦
        let found : get_escalation_state a.id w.states ≡ some st =
          unfold read_state in ground arith in
        let key : st.alert_id ≡ a.id =
          eq_of_str_eq st.alert_id a.id (first_holds (state_of a.id) w.states st found) in
        elim (Option-cases (env.get_monitor a.monitor_id)) [
          | inl f ↦ rw (e, f, process_alert) (IsQuiet-refl i w)
          | inr (m, f) ↦ elim (Option-cases (decide env m st)) [
            | inl g ↦ rw (e, f, g, process_alert) (IsQuiet-refl i w)
            | inr (due, g) ↦
                rw (e, f, g, process_alert) (apply-IsQuiet a m st due w h (λ k. h (sym key ∙ k)))
          ]
        ]
  ]

  pub process_all-IsQuiet :
      (listed : List Alert) (w : World)
      → All (λ a. a.id ≢ i) listed
      → IsQuiet i w (process_all env listed w)
  unfolding process_all
  process_all-IsQuiet [] w h = IsQuiet-refl i w
  process_all-IsQuiet (a ∷ rest) w h =
      IsQuiet-trans (process_alert-IsQuiet a w h.0)
        (process_all-IsQuiet rest (process_alert env a w) h.1)
