-- ===== src/Escalation/Messages.antt =====
-- internal/escalation/engine.go: `handleTrigger`, `handleRecover` and `handleAck` against the gauge and the table.
use yip_yap_foss.Prelude.{
  ℕ, zero, suc, String, true, ◌≡◌, refl, inl, inr, Option, none, some, arith, Option-cases, negsuc,
  sym, ap, length, Bool-cases,
}
use yip_yap_foss.Domain.Alert.{
  Alert, AlertStatus, is_active, firing, resolved, acknowledged, AlertEscalationState, blank,
  triggered, ack,
}
use yip_yap_foss.Domain.Monitor.{Monitor}
use yip_yap_foss.Domain.Escalation.{EscalationStep}
use yip_yap_foss.Domain.Notification.{AckEvent}
use yip_yap_foss.Store.Alerts.{get_by_id, get_active_by_monitor}
use yip_yap_foss.Store.AlertLaws.{IsValid, get_active-row}
use yip_yap_foss.Store.AlertIndex.{create-IsValid}
use yip_yap_foss.Escalation.World.{Env, World, take_uuid, create_event, emit, add_active_alert}
use yip_yap_foss.Escalation.Handlers.{
  AlertTriggerEvent, update_alert, create_alert, announce_fired, announce_resolved, resolve_alert,
  auto_resolve, finish_recover, handle_recover, read_active, start_escalation, after_create,
  trigger_monitor, handle_trigger, acked, ack_alert, ack_unless_resolved, read_alert, handle_ack,
  new_alert, read_steps,
}
use yip_yap_foss.Escalation.Frames.{
  SameAlerts, create_event-SameAlerts, emit-SameAlerts, save_state-SameAlerts,
  notify_step-SameAlerts,
}
use yip_yap_foss.Escalation.Gauge.{
  Base, Inv, SameAlerts-Inv, update_alert_gauge, update_alert_count, update_alert-IsValid,
  try_update-Inv, update_active-Inv,
}
use yip_yap_foss.Escalation.Created.{
  create_count, create-row, add_active_alert-Inv_up, add_active_alert-Inv_down, create_alert_eq,
  get_by_id-key, announce_fired-alerts,
}

module _ (b : Base) (env : Env) (metrics : b.metered ≡ true → env.has_metrics ≡ true) where
  -- A created alert adds one to the count, and `announce_fired` one to the gauge.
  create_announce-Inv :
      (a : Alert) (w w' : World)
      → is_active a.status ≡ true
      → create_alert env a w ≡ some w'
      → Inv b w
      → Inv b (announce_fired env a w')
  unfolding announce_fired
  create_announce-Inv a w w' live e v =
      let (rows, made, eq) = create_alert_eq env a w w' e in
      SameAlerts-Inv (emit-SameAlerts env _ _) (
        SameAlerts-Inv (create_event-SameAlerts env a.id triggered "" "" _) (
          add_active_alert-Inv_up env a.org_id w w' metrics
            (rw eq (create-IsValid a w.alerts v.valid made))
            (rw eq (create_count a w.alerts rows made live)) (rw eq refl) v))

  announce_resolved-SameAlerts :
      (a : Alert) (w : World)
      → SameAlerts (add_active_alert env a.org_id (negsuc 0) w) (announce_resolved env a w)
  unfolding announce_resolved emit create_event
  announce_resolved-SameAlerts a w = ground arith

  resolve_alert-Inv :
      (a : Alert) (w w' : World)
      → get_by_id a.id w.alerts ≡ some a
      → is_active a.status ≡ true
      → resolve_alert env a w ≡ some w'
      → Inv b w
      → Inv b w'
  unfolding resolve_alert
  resolve_alert-Inv a w w' found live e v =
      let gone : Alert = record a { status = resolved; resolved_at = some env.now } in
      elim (Option-cases (update_alert env gone w)) [
        | inl refused ↦ ground arith
        | inr (u, done) ↦
            let eq : announce_resolved env a u ≡ w' = ground arith in
            rw (sym eq) (
              SameAlerts-Inv (announce_resolved-SameAlerts a u) (
                add_active_alert-Inv_down env a.org_id w u metrics
                  (update_alert-IsValid env gone w u done v.valid)
                  (ground (arith, update_alert_count env gone w u a done found, live))
                  (update_alert_gauge env gone w u done) v))
      ]

  read_active-row :
      (m : String) (w : World) (a : Alert)
      → IsValid w.alerts
      → read_active env m w ≡ some a
      → (get_by_id a.id w.alerts ≡ some a)
        × (is_active a.status ≡ true)
        × (env.read_active_ok ≡ true)
        × (get_active_by_monitor m w.alerts ≡ some a)
  unfolding read_active
  read_active-row m w a v e = elim (Bool-cases env.read_active_ok) [
    | inl ok ↦
        let found : get_active_by_monitor m w.alerts ≡ some a = ground arith in
        let row = get_active-row m w.alerts a v found in (row.0, ground (arith, row.1), ok, found)
    | inr failed ↦ ground arith
  ]

  auto_resolve-Inv :
      (fuel : ℕ) (m : Monitor) (w : World) → Inv b w → Inv b (auto_resolve fuel env m w)
  unfolding auto_resolve
  auto_resolve-Inv zero m w v = v
  auto_resolve-Inv (suc fuel) m w v = elim (Option-cases (read_active env m.id w)) [
    | inl e ↦ rw (e, auto_resolve) v
    | inr (a, e) ↦ elim (Option-cases (resolve_alert env a w)) [
      | inl stuck ↦ rw (e, stuck, auto_resolve) v
      | inr (w', done) ↦
          let (found, live, _, _) = read_active-row m.id w a v.valid e in
          rw (e, done, auto_resolve)
            (auto_resolve-Inv fuel m w' (resolve_alert-Inv a w w' found live done v))
    ]
  ]

  finish_recover-Inv :
      (evt : AlertTriggerEvent) (w : World) → Inv b w → Inv b (finish_recover env evt w)
  unfolding finish_recover
  finish_recover-Inv evt w v = elim (Option-cases (env.get_monitor evt.monitor_id)) [
    | inl e ↦ ground (arith, v)
    | inr (m, e) ↦ ground (arith, v, auto_resolve-Inv (suc (length w.alerts)) m w v)
  ]

  pub handle_recover-Inv :
      (evt : Option AlertTriggerEvent) (w : World) → Inv b w → Inv b (handle_recover env evt w).1
  unfolding handle_recover
  handle_recover-Inv none w v = v
  handle_recover-Inv (some evt) w v = elim (Option-cases (read_active env evt.monitor_id w)) [
    | inl e ↦ rw (e, handle_recover) v
    | inr (a, e) ↦ elim (Option-cases (resolve_alert env a w)) [
      | inl stuck ↦ rw (e, stuck, handle_recover) v
      | inr (w', done) ↦
          let (found, live, _, _) = read_active-row evt.monitor_id w a v.valid e in
          rw (e, done, handle_recover)
            (finish_recover-Inv evt w' (resolve_alert-Inv a w w' found live done v))
    ]
  ]

  ack_alert-Inv :
      (evt : AckEvent) (a : Alert) (w : World)
      → get_by_id a.id w.alerts ≡ some a
      → is_active a.status ≡ true
      → Inv b w
      → Inv b (ack_alert env evt a w).1
  unfolding ack_alert
  ack_alert-Inv evt a w found live v = elim (Option-cases (update_alert env (acked env evt a) w)) [
    | inl e ↦ rw (e, ack_alert) v
    | inr (w', e) ↦
        rw (e, ack_alert)
          (SameAlerts-Inv (emit-SameAlerts env _ _) (
            SameAlerts-Inv (create_event-SameAlerts env a.id ack evt.channel evt.user_id w') (
              update_active-Inv env (acked env evt a) w w' a e (unfold acked in found)
                (unfold acked in live) v)))
  ]

  ack_unless_resolved-Inv :
      (s : AlertStatus) (evt : AckEvent) (a : Alert) (w : World)
      → get_by_id a.id w.alerts ≡ some a
      → a.status ≡ s
      → Inv b w
      → Inv b (ack_unless_resolved s env evt a w).1
  unfolding ack_unless_resolved
  ack_unless_resolved-Inv resolved evt a w found is v = v
  ack_unless_resolved-Inv firing evt a w found is v = ack_alert-Inv evt a w found (rw is refl) v
  ack_unless_resolved-Inv acknowledged evt a w found is v =
      ack_alert-Inv evt a w found (rw is refl) v

  pub handle_ack-Inv :
      (evt : Option AckEvent) (w : World) → Inv b w → Inv b (handle_ack env evt w).1
  unfolding handle_ack
  handle_ack-Inv none w v = v
  handle_ack-Inv (some evt) w v = elim (Option-cases (read_alert env evt.alert_id w)) [
    | inl e ↦ rw (e, handle_ack) v
    | inr (a, e) ↦
        let row : get_by_id evt.alert_id w.alerts ≡ some a = unfold read_alert in ground arith in
        let found : get_by_id a.id w.alerts ≡ some a =
          simp (get_by_id-key evt.alert_id w.alerts a row) row in
        rw (e, handle_ack) (ack_unless_resolved-Inv a.status evt a w found refl v)
  ]

  start_escalation-Inv :
      (a row : Alert) (m : Monitor) (s : EscalationStep) (w : World)
      → get_by_id a.id w.alerts ≡ some row
      → is_active row.status ≡ is_active a.status
      → Inv b w
      → Inv b (start_escalation env a m s w).1
  unfolding start_escalation
  start_escalation-Inv a row m s w found same v =
      let a' : Alert = record a { current_escalation_step = s.id } in
      let st : AlertEscalationState = record {
        alert_id = a.id;
        current_step_id = s.id;
        step_entered_at = env.now;
        retry_count = 0;
        last_notified_at = none;
        notifications_sent = blank;
      } in
      let moved = try_update-Inv env a' w row found same v in
      elim (Bool-cases (env.upsert_ok st)) [
        | inl ok ↦ rw ok (
            SameAlerts-Inv (notify_step-SameAlerts env a' m s st _)
              (SameAlerts-Inv (save_state-SameAlerts env st _) moved))
        | inr failed ↦ rw failed moved
      ]

  after_create-Inv :
      (a row : Alert) (m : Monitor) (w : World)
      → get_by_id a.id w.alerts ≡ some row
      → is_active row.status ≡ is_active a.status
      → Inv b w
      → Inv b (after_create env a m w).1
  unfolding after_create
  after_create-Inv a row m w found same v =
      elim (Option-cases (read_steps env m.escalation_policy_id)) [
        | inl e ↦ ground (arith, v)
        | inr ((s, ss), e) ↦ ground (arith, v, start_escalation-Inv a row m s w found same v)
      ]

  create_alert-row :
      (a : Alert) (w w' : World)
      → create_alert env a w ≡ some w'
      → (row : Alert) × (get_by_id a.id (announce_fired env a w').alerts ≡ some row)
        × (row.status ≡ a.status)
  create_alert-row a w w' e =
      let (rows, made, eq) = create_alert_eq env a w w' e in
      let (row, found, same) = create-row a w.alerts rows made in
      (row, rw (announce_fired-alerts env a w', eq) found, same)

  trigger_monitor-Inv :
      (evt : AlertTriggerEvent) (m : Monitor) (w : World)
      → Inv b w
      → Inv b (trigger_monitor env evt m w).1
  unfolding trigger_monitor
  trigger_monitor-Inv evt m w v = elim (Option-cases (read_active env evt.monitor_id w)) [
    | inr (x, e) ↦ rw (e, trigger_monitor) v
    | inl e ↦
        let a = new_alert env evt m (env.uuid w.next_uuid) in
        let ready = SameAlerts-Inv (record { alerts = refl; gauge = refl }) v in
        elim (Option-cases (create_alert env a (take_uuid w))) [
          | inl refused ↦ rw (e, refused, trigger_monitor) ready
          | inr (w', made) ↦
              let (row, found, same) = create_alert-row a (take_uuid w) w' made in
              rw (e, made, trigger_monitor)
                (after_create-Inv a row m _ found (ap is_active same)
                  (create_announce-Inv a (take_uuid w) w' refl made ready))
        ]
  ]

  pub handle_trigger-Inv :
      (evt : Option AlertTriggerEvent) (w : World) → Inv b w → Inv b (handle_trigger env evt w).1
  unfolding handle_trigger
  handle_trigger-Inv none w v = v
  handle_trigger-Inv (some evt) w v = elim (Option-cases (env.get_monitor evt.monitor_id)) [
    | inl e ↦ rw (e, handle_trigger) v
    | inr (m, e) ↦ rw (e, handle_trigger) (trigger_monitor-Inv evt m w v)
  ]
