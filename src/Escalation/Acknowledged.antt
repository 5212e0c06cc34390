-- ===== src/Escalation/Acknowledged.antt =====
-- internal/escalation/engine.go: `handleAck` and the ticks that follow it.
use yip_yap_foss.Prelude.{
  String, true, false, ◌≡◌, ◌≢◌, refl, sym, ◌∙◌, inl, inr, ◌⊎◌, none, some, List, [], ◌∷◌, arith,
  Option-cases, Bool-cases, All, if_rule, ap, subst,
}
use yip_yap_foss.Domain.Alert.{Alert, AlertStatus, is_firing, firing, acknowledged, resolved, ack}
use yip_yap_foss.Domain.Notification.{AckEvent}
use yip_yap_foss.Store.Alerts.{get_by_id, list_firing, updated_row}
use yip_yap_foss.Store.AlertLaws.{IsValid, get_by_id-replace_row}
use yip_yap_foss.Escalation.World.{Env, World, alert_acknowledged, create_event, emit}
use yip_yap_foss.Escalation.Handlers.{
  Outcome, alert_lookup, read_alert, update_failed, update_alert, acked, ack_alert,
  ack_unless_resolved, handle_ack,
}
use yip_yap_foss.Escalation.Tick.{process_firing_alerts}
use yip_yap_foss.Escalation.Gauge.{update_alert_eq, update_alert-IsValid}
use yip_yap_foss.Escalation.Frames.{create_event-SameAlerts, emit-SameAlerts}
use yip_yap_foss.Escalation.Created.{get_by_id-key}
use yip_yap_foss.Escalation.Ticks.{All-list_firing, All-IsRow, IsRow}
use yip_yap_foss.Escalation.Quiet.{IsQuiet, IsQuiet-refl, process_all-IsQuiet}

-- A row that is not firing is not listed.
not_listed :
    (i : String) (rows listed : List Alert) (row : Alert)
    → get_by_id i rows ≡ some row
    → is_firing row.status ≡ false
    → All (λ a. (is_firing a.status ≡ true) × IsRow rows a) listed
    → All (λ a. a.id ≢ i) listed
not_listed i rows [] row e off h = tt
not_listed i rows (a ∷ listed) row e off h =
    (λ same. clash same, not_listed i rows listed row e off h.1)
  where
    clash : a.id ≡ i → ⊥
    clash same =
        let found : get_by_id i rows ≡ some a = simp (sym same) h.0.1 in ground (arith, h.0.0)

-- An alert whose row is acknowledged or resolved is left alone by a tick: its escalation state
-- stays, and no notification is sent for it.
pub tick-unlisted :
    (env : Env) (i : String) (w : World) (row : Alert)
    → IsValid w.alerts
    → get_by_id i w.alerts ≡ some row
    → row.status ≢ firing
    → IsQuiet i w (process_firing_alerts env w)
unfolding process_firing_alerts
tick-unlisted env i w row v e off =
    if_rule (IsQuiet i w) env.list_firing_ok
      (process_all-IsQuiet env i (list_firing w.alerts) w (
        not_listed i w.alerts _ row e (ground arith)
          (All-list_firing (IsRow w.alerts) w.alerts (All-IsRow w.alerts v))))
      (IsQuiet-refl i w)

ack_row :
    (env : Env) (evt : AckEvent) (a : Alert) (w w' : World)
    → update_alert env (acked env evt a) w ≡ some w'
    → get_by_id a.id w.alerts ≡ some a
    → get_by_id a.id w'.alerts ≡ some (updated_row (acked env evt a) a)
ack_row env evt a w w' e found =
    let (_, _, eq, _) = update_alert_eq env (acked env evt a) w w' e in
    rw eq (
      unfold acked in
      get_by_id-replace_row
        (record a {
          status = acknowledged;
          acknowledged_at = some env.now;
          acknowledged_by = evt.user_id;
        })
        w.alerts a found)

-- What an acknowledgement of a live alert does.
abbrev pub AckEffect : Env → String → String → World → Outcome → Type 0
AckEffect env i user_id w (r, w') =
    ((env.get_alert_ok ≡ false) × (r ≡ some alert_lookup) × (w' ≡ w))
    ⊎ ((r ≡ some update_failed) × (w' ≡ w))
    ⊎ ((r ≡ none)
        × ((row : Alert) × (get_by_id i w'.alerts ≡ some row)
            × (row.status ≡ acknowledged)
            × (row.acknowledged_by ≡ user_id))
        × ((later : Env) → IsQuiet i w' (process_firing_alerts later w')))

ack_alert-AckEffect :
    (env : Env) (evt : AckEvent) (a : Alert) (w : World)
    → IsValid w.alerts
    → get_by_id a.id w.alerts ≡ some a
    → AckEffect env a.id evt.user_id w (ack_alert env evt a w)
unfolding ack_alert
ack_alert-AckEffect env evt a w v found =
    elim (Option-cases (update_alert env (acked env evt a) w)) [
      | inl e ↦ inr (inl (ground arith, ground arith))
      | inr (u, e) ↦
          let after : World =
            emit env (alert_acknowledged a.org_id a.id a.monitor_id evt.user_id env.now)
              (create_event env a.id ack evt.channel evt.user_id u) in
          let same : after.alerts ≡ u.alerts =
            (emit-SameAlerts env _ _).alerts
            ∙ (create_event-SameAlerts env a.id ack evt.channel evt.user_id u).alerts in
          let row : get_by_id a.id after.alerts ≡ some (updated_row (acked env evt a) a) =
            ap (get_by_id a.id) same ∙ ack_row env evt a w u e found in
          let valid : IsValid after.alerts =
            rw same (update_alert-IsValid env (acked env evt a) w u e v) in
          rw (e, ack_alert)
            (inr (
              inr (
                refl,
                (updated_row (acked env evt a) a, row, unfold acked in refl, unfold acked in refl),
                λ later. tick-unlisted later a.id after _ valid row (unfold acked in λ off. cc),
              )))
    ]

ack_unless_resolved-AckEffect :
    (s : AlertStatus) (env : Env) (evt : AckEvent) (a : Alert) (w : World)
    → IsValid w.alerts
    → get_by_id a.id w.alerts ≡ some a
    → s ≢ resolved
    → AckEffect env a.id evt.user_id w (ack_unless_resolved s env evt a w)
unfolding ack_unless_resolved
ack_unless_resolved-AckEffect resolved env evt a w v found live = absurd (live refl)
ack_unless_resolved-AckEffect firing env evt a w v found live =
    ack_alert-AckEffect env evt a w v found
ack_unless_resolved-AckEffect acknowledged env evt a w v found live =
    ack_alert-AckEffect env evt a w v found

-- An acknowledgement of an alert that is not resolved fails to read it, the read being one that fails, or
-- fails to update it, and then changes nothing and naks its message, or marks its row acknowledged by that user; and then a tick, in
-- whatever environment, leaves the alert's escalation state and its notifications as they are.
pub handle_ack_silences :
    (env : Env) (evt : AckEvent) (w : World) (a : Alert)
    → IsValid w.alerts
    → get_by_id evt.alert_id w.alerts ≡ some a
    → a.status ≢ resolved
    → AckEffect env evt.alert_id evt.user_id w (handle_ack env (some evt) w)
unfolding handle_ack
handle_ack_silences env evt w a v e live = elim (Bool-cases env.get_alert_ok) [
  | inr off ↦ inl (off, (read_failed off).0, (read_failed off).1)
  | inl ok ↦
      let key = get_by_id-key evt.alert_id w.alerts a e in
      let found : get_by_id a.id w.alerts ≡ some a = simp key e in
      let read : read_alert env evt.alert_id w ≡ some a = unfold read_alert in rw ok e in
      rw (read, handle_ack)
        (subst (λ i. AckEffect env i evt.user_id w (ack_unless_resolved a.status env evt a w)) key
          (ack_unless_resolved-AckEffect a.status env evt a w v found live))
]
  where
    read_failed :
        env.get_alert_ok ≡ false
        → ((handle_ack env (some evt) w).0 ≡ some alert_lookup)
          × ((handle_ack env (some evt) w).1 ≡ w)
    read_failed off =
        let missing : read_alert env evt.alert_id w ≡ none = unfold read_alert in rw off refl in
        (rw (missing, handle_ack) refl, rw (missing, handle_ack) refl)
