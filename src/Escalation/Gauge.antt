-- ===== src/Escalation/Gauge.antt =====
-- internal/escalation/engine.go: the gauge of active alerts against the table.
use yip_yap_foss.Prelude.{
  ℕ, ◌+◌, ℤ, pos_part, neg_part, Bool, true, ◌≡◌, refl, inl, inr, some, arith, Option-cases,
}
use yip_yap_foss.Domain.Alert.{Alert, is_active}
use yip_yap_foss.Store.Alerts.{update, get_by_id, replace_row}
use yip_yap_foss.Store.AlertLaws.{IsValid, active_count, bit, active_count-replace_row}
use yip_yap_foss.Store.AlertIndex.{update-IsValid}
use yip_yap_foss.Escalation.World.{Env, World}
use yip_yap_foss.Escalation.Handlers.{update_alert, try_update}
use yip_yap_foss.Escalation.Frames.{SameAlerts}

-- Whether there are metrics, and the gauge and the number of active alerts at the start.
pub record Base : Type 0 where
  pub metered : Bool
  pub gauge : ℤ
  pub count : ℕ

-- The schema's constraints hold, and with metrics the gauge has moved since the start as the number of active
-- alerts has.
pub record Inv (b : Base) (w : World) : Type 0 where
  pub valid : IsValid w.alerts
  pub gauge :
      b.metered ≡ true
      → pos_part w.active_gauge + neg_part b.gauge + b.count
        ≡ pos_part b.gauge + neg_part w.active_gauge + active_count w.alerts

pub SameAlerts-Inv : {b : Base} {w w' : World} → SameAlerts w w' → Inv b w → Inv b w'
SameAlerts-Inv {b} {w} {w'} s v = record {
  valid = rw s.alerts v.valid;
  gauge = rw (s.gauge, s.alerts) v.gauge;
}

-- An update that goes through rewrites the row of its key.
pub update_alert_eq :
    (env : Env) (a : Alert) (w w' : World)
    → update_alert env a w ≡ some w'
    → (row : Alert) × (get_by_id a.id w.alerts ≡ some row)
      × (w' ≡ record w { alerts = replace_row a w.alerts })
      × (update a w.alerts ≡ some (replace_row a w.alerts))
unfolding update_alert update
update_alert_eq env a w w' e = elim (Option-cases (get_by_id a.id w.alerts)) [
  | inl missing ↦ ground arith
  | inr (row, found) ↦ (row, found, ground arith, ground arith)
]

-- So the number of active alerts moves as the row does.
pub update_alert_count :
    (env : Env) (a : Alert) (w w' : World) (row : Alert)
    → update_alert env a w ≡ some w'
    → get_by_id a.id w.alerts ≡ some row
    → active_count w'.alerts + bit (is_active row.status)
      ≡ active_count w.alerts + bit (is_active a.status)
update_alert_count env a w w' row e f =
    let (_, _, eq, _) = update_alert_eq env a w w' e in
    rw eq (active_count-replace_row a w.alerts row f)

pub update_alert-IsValid :
    (env : Env) (a : Alert) (w w' : World)
    → update_alert env a w ≡ some w'
    → IsValid w.alerts
    → IsValid w'.alerts
update_alert-IsValid env a w w' e v =
    let (_, _, eq, up) = update_alert_eq env a w w' e in rw eq (update-IsValid a w.alerts v up)

pub update_alert_gauge :
    (env : Env) (a : Alert) (w w' : World)
    → update_alert env a w ≡ some w'
    → w'.active_gauge ≡ w.active_gauge
update_alert_gauge env a w w' e = let (_, _, eq, _) = update_alert_eq env a w w' e in rw eq refl

-- Rewriting an active row as active keeps the invariant.
pub update_active-Inv :
    {b : Base} (env : Env) (a : Alert) (w w' : World) (row : Alert)
    → update_alert env a w ≡ some w'
    → get_by_id a.id w.alerts ≡ some row
    → is_active row.status ≡ is_active a.status
    → Inv b w
    → Inv b w'
update_active-Inv env a w w' row e f same v = record {
  valid = update_alert-IsValid env a w w' e v.valid;
  gauge = λ on.
      ground
        (arith, update_alert_gauge env a w w' e, update_alert_count env a w w' row e f, v.gauge on);
}

pub try_update-Inv :
    {b : Base} (env : Env) (a : Alert) (w : World) (row : Alert)
    → get_by_id a.id w.alerts ≡ some row
    → is_active row.status ≡ is_active a.status
    → Inv b w
    → Inv b (try_update env a w)
unfolding try_update
try_update-Inv env a w row f same v = elim (Option-cases (update_alert env a w)) [
  | inl e ↦ rw (e, try_update) v
  | inr (w', e) ↦ rw (e, try_update) (update_active-Inv env a w w' row e f same v)
]
