-- ===== src/Escalation/Races.antt =====
-- internal/escalation/engine.go: `processFiringAlerts` walks a listing that it read at its start, and
-- writes back whole rows of it. What happens to a row that a handler changes in between.
use yip_yap_foss.Prelude.{
  true, ◌≡◌, ◌≢◌, refl, sym, ◌∙◌, ap, subst, inl, inr, none, some, List, arith,
}
use yip_yap_foss.Domain.Alert.{
  Alert, AlertEscalationState, firing, acknowledged, resolved, escalated,
}
use yip_yap_foss.Domain.Notification.{AckEvent}
use yip_yap_foss.Domain.Monitor.{Monitor}
use yip_yap_foss.Domain.Escalation.{EscalationStep}
use yip_yap_foss.Store.Alerts.{get_by_id, update, updated_row, replace_row}
use yip_yap_foss.Store.AlertLaws.{IsValid, get_by_id-replace_row}
use yip_yap_foss.Escalation.World.{Env, World, alert_escalated, create_event, emit}
use yip_yap_foss.Escalation.Notify.{save_state}
use yip_yap_foss.Escalation.Handlers.{HandlerError, try_update, update_alert, handle_ack}
use yip_yap_foss.Escalation.Acknowledged.{handle_ack_silences}
use yip_yap_foss.Escalation.Created.{get_by_id-key}
use yip_yap_foss.Escalation.Tick.{enter_step, step_channel_hint}
use yip_yap_foss.Escalation.Frames.{
  create_event-SameAlerts, emit-SameAlerts, save_state-SameAlerts, notify_step-SameAlerts,
}

update-replaces :
    (a : Alert) (rows rows' : List Alert) → update a rows ≡ some rows' → rows' ≡ replace_row a rows
unfolding update
update-replaces a rows rows' e = ground arith

try_update_went :
    (env : Env) (a : Alert) (w : World) (rows : List Alert)
    → env.update_ok a ≡ true
    → update a w.alerts ≡ some rows
    → (try_update env a w).alerts ≡ rows
unfolding try_update update_alert
try_update_went env a w rows ok went = ground (arith, ok, went)

-- Entering a step writes the row of the alert from the copy `a` that the tick listed. If the update goes
-- through, the row has the status, the severity and the acknowledgement of the copy, whatever they
-- were in the row: an alert that was acknowledged after the listing is firing again.
pub enter_step_overwrites :
    (env : Env) (a : Alert) (m : Monitor) (s : EscalationStep) (st : AlertEscalationState)
    (w : World) (row : Alert) (rows : List Alert)
    → get_by_id a.id w.alerts ≡ some row
    → env.update_ok (record a { current_escalation_step = s.id }) ≡ true
    → update (record a { current_escalation_step = s.id }) w.alerts ≡ some rows
    → get_by_id a.id (enter_step env a m s st w).alerts
      ≡ some (updated_row (record a { current_escalation_step = s.id }) row)
unfolding enter_step
enter_step_overwrites env a m s st w row rows found ok went =
    let a' : Alert = record a { current_escalation_step = s.id } in
    let w₀ = save_state env st w in
    let w₁ = try_update env a' w₀ in
    let w₂ =
      emit env
        (alert_escalated a.org_id a.id a.monitor_id s.position (step_channel_hint env s.id) env.now)
        (create_event env a.id escalated "" "" w₁) in
    let same : (enter_step env a m s st w).alerts ≡ w₁.alerts =
      (notify_step-SameAlerts env a' m s st w₂).alerts
      ∙ (emit-SameAlerts env _ _).alerts
      ∙ (create_event-SameAlerts env a.id escalated "" "" w₁).alerts in
    ap (get_by_id a.id) (
      same
      ∙ try_update_went env a' w₀ rows ok
          (ap (update a') (save_state-SameAlerts env st w).alerts ∙ went)
      ∙ update-replaces a' w.alerts rows went)
    ∙ get_by_id-replace_row a' w.alerts row found

-- An acknowledgement that falls between the listing of a tick and the write of its turn, when the turn enters a step and
-- its update of the alert goes through: it marks the row acknowledged and acks its message, and then the turn leaves
-- the row firing, with the acknowledging user of before.
pub ack_overwritten :
    (env later : Env) (evt : AckEvent) (w : World) (a : Alert) (m : Monitor) (s : EscalationStep)
    (st : AlertEscalationState) (rows : List Alert)
    → IsValid w.alerts
    → get_by_id evt.alert_id w.alerts ≡ some a
    → a.status ≡ firing
    → (handle_ack env (some evt) w).0 ≡ none
    → later.update_ok (record a { current_escalation_step = s.id }) ≡ true
    → update (record a { current_escalation_step = s.id }) (handle_ack env (some evt) w).1.alerts
      ≡ some rows
    → let between = (handle_ack env (some evt) w).1 in
      ((row : Alert) × (get_by_id evt.alert_id between.alerts ≡ some row)
        × (row.status ≡ acknowledged)
        × (row.acknowledged_by ≡ evt.user_id))
      × ((row : Alert) × (get_by_id evt.alert_id (enter_step later a m s st between).alerts
            ≡ some row)
          × (row.status ≡ firing)
          × (row.acknowledged_by ≡ a.acknowledged_by))
ack_overwritten env later evt w a m s st rows v found is done ok went =
    elim (handle_ack_silences env evt w a v found (λ e. live (sym is ∙ e))) [
      | inl (_, failed, _) ↦ absurd (none_not _ (sym done ∙ failed))
      | inr (inl (failed, _)) ↦ absurd (none_not _ (sym done ∙ failed))
      | inr (inr (_, (row, there, marked, by), _)) ↦
          let key = get_by_id-key evt.alert_id w.alerts a found in
          (
            (row, there, marked, by),
            (
              updated_row (record a { current_escalation_step = s.id }) row,
              subst
                  (λ i.
                    get_by_id i (enter_step later a m s st (handle_ack env (some evt) w).1).alerts
                    ≡ some (updated_row (record a { current_escalation_step = s.id }) row))
                  key
                  (enter_step_overwrites later a m s st (handle_ack env (some evt) w).1 row rows
                    (subst (λ i. get_by_id i (handle_ack env (some evt) w).1.alerts ≡ some row)
                      (sym key) there)
                    ok went),
              is,
              refl,
            ),
          )
    ]
  where
    live : firing ≢ resolved
    live e = cc

    none_not : (e : HandlerError) → none ≢ some e
    none_not e same = ground (arith, same)
