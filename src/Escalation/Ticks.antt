-- ===== src/Escalation/Ticks.antt =====
-- internal/escalation/engine.go: `processFiringAlerts` over a listing of the firing alerts.
use yip_yap_foss.Prelude.{
  String, true, ◌≡◌, refl, sym, ◌⊎◌, inl, inr, some, List, [], ◌∷◌, arith, Bool-cases, Option-cases,
  All, if_rule, leb, str_eq_refl, ◌∙◌,
}
use yip_yap_foss.Domain.Alert.{Alert, is_active, is_firing, firing, AlertEscalationState}
use yip_yap_foss.Domain.Monitor.{Monitor}
use yip_yap_foss.Domain.Escalation.{EscalationStep}
use yip_yap_foss.Store.Alerts.{
  get_by_id, replace_row, updated_row, has_id, insert_by_start, list_firing,
}
use yip_yap_foss.Store.AlertLaws.{IsValid, other_key}
use yip_yap_foss.Escalation.World.{Env, World, record_escalation_step}
use yip_yap_foss.Escalation.Handlers.{try_update, update_alert}
use yip_yap_foss.Escalation.Tick.{
  Due, retry, advance, restart, decide, enter_step, apply, process_alert, process_all, read_state,
  process_firing_alerts,
}
use yip_yap_foss.Escalation.Frames.{
  SameAlerts, create_event-SameAlerts, emit-SameAlerts, save_state-SameAlerts,
  notify_step-SameAlerts,
}
use yip_yap_foss.Escalation.Gauge.{Base, Inv, SameAlerts-Inv, try_update-Inv, update_alert_eq}

-- What one alert's turn can do to a property of the world: nothing, if the property looks at the
-- alert table only and survives the one update that the turn may make.
module _ {ℓ} (P : World → Type ℓ) (same : (w w' : World) → SameAlerts w w' → P w → P w') (env : Env)
    (a : Alert) where
  enter_step_rule :
      (m : Monitor) (s : EscalationStep) (st : AlertEscalationState) (w : World)
      → ((u : World) → P u → P (try_update env (record a { current_escalation_step = s.id }) u))
      → P w
      → P (enter_step env a m s st w)
  unfolding enter_step
  enter_step_rule m s st w move p = same _ _ (notify_step-SameAlerts env _ m s st _) (
      same _ _ (emit-SameAlerts env _ _) (
        same _ _ (create_event-SameAlerts env a.id _ "" "" _)
          (move _ (same _ _ (save_state-SameAlerts env st w) p))))

  apply_rule :
      (m : Monitor) (st : AlertEscalationState) (due : Due) (w : World)
      → ((s : String) (u : World)
          → P u
          → P (try_update env (record a { current_escalation_step = s }) u))
      → P w
      → P (apply env a m st due w)
  unfolding apply record_escalation_step
  apply_rule m st (retry s) w move p =
      same _ _ (notify_step-SameAlerts env a m s _ _) (same _ _ (save_state-SameAlerts env _ w) p)
  apply_rule m st (advance s) w move p =
      enter_step_rule m s _ _ (move s.id)
        (same w (record_escalation_step env a.org_id s.position w) (ground arith) p)
  apply_rule m st (restart s n) w move p = enter_step_rule m s _ w (move s.id) p

  pub process_alert_rule :
      (w : World)
      → ((s : String) (u : World)
          → P u
          → P (try_update env (record a { current_escalation_step = s }) u))
      → P w
      → P (process_alert env a w)
  unfolding process_alert
  process_alert_rule w move p = elim (Option-cases (read_state env a.id w)) [
    | inl e ↦ rw (e, process_alert) p
    | inr (st, e) ↦ elim (Option-cases (env.get_monitor a.monitor_id)) [
      | inl f ↦ rw (e, f, process_alert) p
      | inr (m, f) ↦ elim (Option-cases (decide env m st)) [
        | inl g ↦ rw (e, f, g, process_alert) p
        | inr (due, g) ↦ rw (e, f, g, process_alert) (apply_rule m st due w move p)
      ]
    ]
  ]

-- An alert of the listing: it was firing, and its row is still active.
abbrev pub IsListed : List Alert → Alert → Type 0
IsListed rows a =
    (a.status ≡ firing)
    × (row : Alert) × (get_by_id a.id rows ≡ some row)
    × (is_active row.status ≡ true)

-- After an update a row has its old status or the new one.
row-replace_row :
    (i : String) (a : Alert) (rows : List Alert) (row : Alert)
    → get_by_id i rows ≡ some row
    → (row' : Alert) × (get_by_id i (replace_row a rows) ≡ some row')
      × ((row'.status ≡ row.status) ⊎ (row'.status ≡ a.status))
unfolding get_by_id replace_row
row-replace_row i a [] row e = cc
row-replace_row i a (b ∷ rows) row e = elim (Bool-cases (has_id a.id b)) [
  | inl hit ↦ elim (Bool-cases (has_id i b)) [
    | inl here ↦ (updated_row a b, ground arith, inr refl)
    | inr there ↦ (row, ground arith, inl refl)
  ]
  | inr miss ↦ elim (Bool-cases (has_id i b)) [
    | inl here ↦ (row, ground arith, inl refl)
    | inr there ↦
        let (row', found, was) = row-replace_row i a rows row (ground arith) in
        (row', ground arith, was)
  ]
]

IsListed-replace_row :
    (a : Alert) (rows : List Alert) (b : Alert)
    → is_active a.status ≡ true
    → IsListed rows b
    → IsListed (replace_row a rows) b
IsListed-replace_row a rows b live (is, row, found, on) =
    let (row', found', was) = row-replace_row b.id a rows row found in
    (is, row', found', ground arith)

-- What a listed alert's turn keeps of the alerts listed with it.
abbrev IsRunning : Base → List Alert → World → Type 0
IsRunning b listed w = Inv b w × All (IsListed w.alerts) listed

All-replace_row :
    (a : Alert) (rows listed : List Alert)
    → is_active a.status ≡ true
    → All (IsListed rows) listed
    → All (IsListed (replace_row a rows)) listed
All-replace_row a rows [] live h = tt
All-replace_row a rows (b ∷ bs) live h =
    (IsListed-replace_row a rows b live h.0, All-replace_row a rows bs live h.1)

try_update-All :
    (env : Env) (a : Alert) (w : World) (listed : List Alert)
    → is_active a.status ≡ true
    → All (IsListed w.alerts) listed
    → All (IsListed (try_update env a w).alerts) listed
unfolding try_update
try_update-All env a w listed live h = elim (Option-cases (update_alert env a w)) [
  | inl e ↦ rw (e, try_update) h
  | inr (w', e) ↦
      let (_, _, eq, _) = update_alert_eq env a w w' e in
      rw (e, eq, try_update) (All-replace_row a w.alerts listed live h)
]

same-IsRunning :
    (b : Base) (listed : List Alert) (w w' : World)
    → SameAlerts w w'
    → IsRunning b listed w
    → IsRunning b listed w'
same-IsRunning b listed w w' s (v, h) = (SameAlerts-Inv s v, rw s.alerts h)

move-IsRunning :
    (b : Base) (env : Env) (a : Alert) (rest : List Alert) (s : String) (w : World)
    → IsRunning b (a ∷ rest) w
    → IsRunning b (a ∷ rest) (try_update env (record a { current_escalation_step = s }) w)
move-IsRunning b env a rest s w (v, h) =
    let a' : Alert = record a { current_escalation_step = s } in
    let (is, row, found, live) = h.0 in
    let on : is_active a.status ≡ true = rw is refl in
    (try_update-Inv env a' w row found (live ∙ sym on) v, try_update-All env a' w (a ∷ rest) on h)

process_all-Inv :
    (b : Base) (env : Env) (listed : List Alert) (w : World)
    → IsRunning b listed w
    → Inv b (process_all env listed w)
unfolding process_all
process_all-Inv b env [] w (v, h) = v
process_all-Inv b env (a ∷ rest) w r =
    let (v, h) =
      process_alert_rule (IsRunning b (a ∷ rest)) (same-IsRunning b (a ∷ rest)) env a w
        (λ s u. move-IsRunning b env a rest s u) r in
    process_all-Inv b env rest (process_alert env a w) (v, h.1)

-- Every row of a valid table is found by its key.
abbrev pub IsRow : List Alert → Alert → Type 0
IsRow rows a = get_by_id a.id rows ≡ some a

All-IsRow_cons :
    (b : Alert) (rows xs : List Alert)
    → IsValid (b ∷ rows)
    → All (IsRow rows) xs
    → All (IsRow (b ∷ rows)) xs
unfolding get_by_id
All-IsRow_cons b rows [] v h = tt
All-IsRow_cons b rows (x ∷ xs) v h =
    (ground (arith, h.0, other_key b rows x.id v h.0), All-IsRow_cons b rows xs v h.1)

pub All-IsRow : (rows : List Alert) → IsValid rows → All (IsRow rows) rows
unfolding get_by_id
All-IsRow [] v = tt
All-IsRow (b ∷ rows) v =
    (ground (arith, str_eq_refl b.id), All-IsRow_cons b rows rows v (All-IsRow rows v.2))

All-insert {ℓ} :
    (P : Alert → Type ℓ) (a : Alert) (bs : List Alert)
    → P a
    → All P bs
    → All P (insert_by_start a bs)
unfolding insert_by_start
All-insert P a [] p h = (p, tt)
All-insert P a (b ∷ bs) p h = elim (Bool-cases (leb a.started_at b.started_at)) [
  | inl e ↦ rw e (p, h)
  | inr e ↦ rw e (h.0, All-insert P a bs p h.1)
]

-- The listing holds firing rows only.
pub All-list_firing {ℓ} :
    (P : Alert → Type ℓ) (rows : List Alert)
    → All P rows
    → All (λ a. (is_firing a.status ≡ true) × P a) (list_firing rows)
unfolding list_firing
All-list_firing P [] h = tt
All-list_firing P (a ∷ rows) h = elim (Bool-cases (is_firing a.status)) [
  | inl e ↦ rw e (All-insert _ a (list_firing rows) (e, h.0) (All-list_firing P rows h.1))
  | inr e ↦ rw e (All-list_firing P rows h.1)
]

IsListed-rows :
    (rows xs : List Alert)
    → All (λ a. (is_firing a.status ≡ true) × IsRow rows a) xs
    → All (IsListed rows) xs
IsListed-rows rows [] h = tt
IsListed-rows rows (x ∷ xs) h =
    ((ground (arith, h.0.0), x, h.0.1, ground (arith, h.0.0)), IsListed-rows rows xs h.1)

-- One tick of the engine.
pub process_firing_alerts-Inv :
    (b : Base) (env : Env) (w : World) → Inv b w → Inv b (process_firing_alerts env w)
unfolding process_firing_alerts
process_firing_alerts-Inv b env w v =
    if_rule (Inv b) env.list_firing_ok
      (process_all-Inv b env (list_firing w.alerts) w (
        v,
        IsListed-rows w.alerts _
            (All-list_firing (IsRow w.alerts) w.alerts (All-IsRow w.alerts v.valid)),
      ))
      v
