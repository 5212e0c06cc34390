-- ===== src/Escalation/Created.antt =====
-- internal/escalation/engine.go: a row that `handleTrigger` creates, and the gauge beside it.
use yip_yap_foss.Prelude.{
  suc, pos, ◌+ℤ◌, String, true, ◌≡◌, refl, inl, inr, some, arith, Option-cases, str_eq_refl, negsuc,
  first_holds, eq_of_str_eq, List, ℤ, +ℤ_parts,
}
use yip_yap_foss.Domain.Alert.{Alert, is_active}
use yip_yap_foss.Store.Alerts.{create, get_by_id, has_id}
use yip_yap_foss.Store.Time.{stored_time, stored_optional}
use yip_yap_foss.Store.AlertLaws.{IsValid, active_count}
use yip_yap_foss.Escalation.World.{Env, World, create_event, emit, add_active_alert}
use yip_yap_foss.Escalation.Handlers.{create_alert, announce_fired}
use yip_yap_foss.Escalation.Gauge.{Base, Inv}

pub create_count :
    (a : Alert) (rows rows' : List Alert)
    → create a rows ≡ some rows'
    → is_active a.status ≡ true
    → active_count rows' ≡ suc (active_count rows)
unfolding create
create_count a rows rows' e live = ground arith

-- A created row is found by its key, with its status.
pub create-row :
    (a : Alert) (rows rows' : List Alert)
    → create a rows ≡ some rows'
    → (row : Alert) × (get_by_id a.id rows' ≡ some row) × (row.status ≡ a.status)
unfolding create get_by_id
create-row a rows rows' e = (
  record a {
    started_at = stored_time a.started_at;
    acknowledged_at = stored_optional a.acknowledged_at;
    resolved_at = stored_optional a.resolved_at;
  },
  ground (arith, str_eq_refl a.id),
  refl,
)

add_active_alert-alerts :
    (env : Env) (org_id : String) (delta : ℤ) (w : World)
    → (add_active_alert env org_id delta w).alerts ≡ w.alerts
unfolding add_active_alert
add_active_alert-alerts env org_id delta w = ground arith

add_active_alert-gauge :
    (env : Env) (org_id : String) (delta : ℤ) (w : World)
    → env.has_metrics ≡ true
    → (add_active_alert env org_id delta w).active_gauge ≡ w.active_gauge +ℤ delta
unfolding add_active_alert
add_active_alert-gauge env org_id delta w on = ground (arith, on)

module _ {b : Base} (env : Env) (org_id : String) (w w' : World)
    (metrics : b.metered ≡ true → env.has_metrics ≡ true) where
  pub add_active_alert-Inv_up :
      IsValid w'.alerts
      → active_count w'.alerts ≡ suc (active_count w.alerts)
      → w'.active_gauge ≡ w.active_gauge
      → Inv b w
      → Inv b (add_active_alert env org_id (pos 1) w')
  add_active_alert-Inv_up valid count same v = record {
    valid = rw (add_active_alert-alerts env org_id (pos 1) w') valid;
    gauge = λ on.
        rw
          (
            add_active_alert-alerts env org_id (pos 1) w',
            add_active_alert-gauge env org_id (pos 1) w' (metrics on),
          )
          (ground (arith, v.gauge on, same, count, +ℤ_parts w'.active_gauge (pos 1)));
  }

  pub add_active_alert-Inv_down :
      IsValid w'.alerts
      → suc (active_count w'.alerts) ≡ active_count w.alerts
      → w'.active_gauge ≡ w.active_gauge
      → Inv b w
      → Inv b (add_active_alert env org_id (negsuc 0) w')
  add_active_alert-Inv_down valid count same v = record {
    valid = rw (add_active_alert-alerts env org_id (negsuc 0) w') valid;
    gauge = λ on.
        rw
          (
            add_active_alert-alerts env org_id (negsuc 0) w',
            add_active_alert-gauge env org_id (negsuc 0) w' (metrics on),
          )
          (ground (arith, v.gauge on, same, count, +ℤ_parts w'.active_gauge (negsuc 0)));
  }

pub create_alert_eq :
    (env : Env) (a : Alert) (w w' : World)
    → create_alert env a w ≡ some w'
    → (rows : List Alert) × (create a w.alerts ≡ some rows) × (w' ≡ record w { alerts = rows })
unfolding create_alert
create_alert_eq env a w w' e = elim (Option-cases (create a w.alerts)) [
  | inl refused ↦ ground arith
  | inr (rows, made) ↦ (rows, made, ground arith)
]

pub get_by_id-key :
    (i : String) (rows : List Alert) (a : Alert) → get_by_id i rows ≡ some a → a.id ≡ i
unfolding get_by_id
get_by_id-key i rows a e = eq_of_str_eq a.id i (first_holds (has_id i) rows a e)

pub announce_fired-alerts :
    (env : Env) (a : Alert) (w : World) → (announce_fired env a w).alerts ≡ w.alerts
unfolding announce_fired emit create_event add_active_alert
announce_fired-alerts env a w = ground arith
