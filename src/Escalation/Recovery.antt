-- ===== src/Escalation/Recovery.antt =====
-- internal/escalation/engine.go: `handleRecover` and `autoResolveAlerts` over the active alerts of a monitor.
use yip_yap_foss.Prelude.{
  ℕ, zero, suc, String, true, false, ◌≡◌, refl, sym, inl, inr, none, some, List, [], ◌∷◌, ◌⊎◌,
  arith, Option-cases, length,
}
use yip_yap_foss.Domain.Alert.{Alert, resolved, AlertEscalationState}
use yip_yap_foss.Domain.Monitor.{Monitor}
use yip_yap_foss.Store.Alerts.{get_active_by_monitor, delete_state, get_escalation_state}
use yip_yap_foss.Store.AlertLaws.{IsValid, no_active-replace_row, get_active-none}
use yip_yap_foss.Escalation.World.{Env, World, create_event, emit, add_active_alert}
use yip_yap_foss.Escalation.Handlers.{
  AlertTriggerEvent, update_failed, update_alert, resolve_alert, announce_resolved, auto_resolve,
  auto_resolve_alerts, finish_recover, read_active, handle_recover,
}
use yip_yap_foss.Escalation.Gauge.{update_alert_eq}

-- No active alert is left for the monitor.
abbrev IsClear : String → World → Type 0
IsClear m w = get_active_by_monitor m w.alerts ≡ none

announce_resolved-alerts :
    (env : Env) (a : Alert) (w : World) → (announce_resolved env a w).alerts ≡ w.alerts
unfolding announce_resolved emit create_event add_active_alert
announce_resolved-alerts env a w = ground arith

announce_resolved-states :
    (env : Env) (a : Alert) (w : World)
    → env.delete_ok a.id ≡ true
    → (announce_resolved env a w).states ≡ delete_state a.id w.states
unfolding announce_resolved emit create_event add_active_alert
announce_resolved-states env a w h = ground arith

get_escalation_state-delete_state :
    (i : String) (ss : List AlertEscalationState)
    → get_escalation_state i (delete_state i ss) ≡ none
unfolding get_escalation_state delete_state
get_escalation_state-delete_state i [] = refl
get_escalation_state-delete_state i (s ∷ ss) =
    ground (arith, get_escalation_state-delete_state i ss)

-- Resolving the alert that the query found clears its monitor, and drops its escalation state.
resolve_alert-IsClear :
    (env : Env) (m : String) (a : Alert) (w w' : World)
    → IsValid w.alerts
    → get_active_by_monitor m w.alerts ≡ some a
    → resolve_alert env a w ≡ some w'
    → IsClear m w' × (env.delete_ok a.id ≡ true → get_escalation_state a.id w'.states ≡ none)
unfolding resolve_alert
resolve_alert-IsClear env m a w w' v e done =
    let gone : Alert = record a { status = resolved; resolved_at = some env.now } in
    elim (Option-cases (update_alert env gone w)) [
      | inl refused ↦ ground arith
      | inr (u, went) ↦
          let (_, _, eq, _) = update_alert_eq env gone w u went in
          let is : announce_resolved env a u ≡ w' = ground arith in
          (
            rw (sym is, announce_resolved-alerts env a u, eq)
                (get_active-none m _ (no_active-replace_row m w.alerts a gone v e refl refl)),
            λ ok.
                rw (sym is, announce_resolved-states env a u ok)
                  (get_escalation_state-delete_state a.id u.states),
          )
    ]

read_active-clear : (env : Env) (m : String) (w : World) → IsClear m w → read_active env m w ≡ none
unfolding read_active
read_active-clear env m w h = ground (arith, h)

-- On a clear monitor the loop ends at once.
auto_resolve-clear :
    (fuel : ℕ) (env : Env) (m : Monitor) (w : World)
    → IsClear m.id w
    → auto_resolve fuel env m w ≡ w
unfolding auto_resolve
auto_resolve-clear zero env m w h = refl
auto_resolve-clear (suc fuel) env m w h = rw (read_active-clear env m.id w h, auto_resolve)

finish_recover-clear :
    (env : Env) (evt : AlertTriggerEvent) (w : World)
    → ((m : Monitor) → env.get_monitor evt.monitor_id ≡ some m → m.id ≡ evt.monitor_id)
    → IsClear evt.monitor_id w
    → finish_recover env evt w ≡ w
unfolding finish_recover auto_resolve_alerts
finish_recover-clear env evt w keyed h = elim (Option-cases (env.get_monitor evt.monitor_id)) [
  | inl e ↦ ground arith
  | inr (m, e) ↦
      ground (arith, auto_resolve-clear (suc (length w.alerts)) env m w (rw (keyed m e) h))
]

-- A recovery of a monitor with an active alert, over a valid table and with monitors found under their own
-- identifiers: if the read of the active alert fails, it changes nothing and acknowledges its message;
-- otherwise it either fails to update the alert, and then changes nothing and naks its message, or leaves the monitor with no active alert and, if the delete goes
-- through, that alert with no escalation state.
pub handle_recover_clears :
    (env : Env) (evt : AlertTriggerEvent) (w : World) (a : Alert)
    → IsValid w.alerts
    → ((m : Monitor) → env.get_monitor evt.monitor_id ≡ some m → m.id ≡ evt.monitor_id)
    → get_active_by_monitor evt.monitor_id w.alerts ≡ some a
    → let (r, w') = handle_recover env (some evt) w in
      (env.read_active_ok ≡ false → (r ≡ none) × (w' ≡ w))
      × (env.read_active_ok ≡ true
          → ((r ≡ some update_failed) × (w' ≡ w))
            ⊎ ((r ≡ none)
                × (get_active_by_monitor evt.monitor_id w'.alerts ≡ none)
                × (env.delete_ok a.id ≡ true → get_escalation_state a.id w'.states ≡ none)))
unfolding handle_recover read_active
handle_recover_clears env evt w a v keyed e =
    (λ off. (ground (arith, off), ground (arith, off)), λ ok. recovered ok)
  where
    recovered :
        env.read_active_ok ≡ true
        → (((handle_recover env (some evt) w).0 ≡ some update_failed)
            × ((handle_recover env (some evt) w).1 ≡ w))
          ⊎ (((handle_recover env (some evt) w).0 ≡ none)
              × (get_active_by_monitor evt.monitor_id (handle_recover env (some evt) w).1.alerts
                  ≡ none)
              × (env.delete_ok a.id ≡ true
                  → get_escalation_state a.id (handle_recover env (some evt) w).1.states ≡ none))
    recovered ok = elim (Option-cases (resolve_alert env a w)) [
      | inl stuck ↦ inl (ground arith)
      | inr (w', done) ↦
          let (clear, dropped) = resolve_alert-IsClear env evt.monitor_id a w w' v e done in
          let stays = finish_recover-clear env evt w' keyed clear in
          inr (
            ground (arith, stays),
            ground (arith, stays, clear),
            λ d. ground (arith, stays, dropped d),
          )
    ]
