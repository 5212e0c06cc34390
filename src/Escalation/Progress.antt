-- ===== src/Escalation/Progress.antt =====
-- internal/escalation/engine.go: the decisions of `processFiringAlerts` on the step, the repeats and the loops.
use yip_yap_foss.Prelude.{
  ℕ, String, false, ◌≡◌, refl, ◌∙◌, ap, inl, inr, ◌⊎◌, Option, none, some, List, [], ◌∷◌, arith,
  Bool-cases, Option-cases, if_rule,
}
use text.Mathlib.TextEquality.{eq_iff}
use yip_yap_foss.Domain.Alert.{Alert, AlertEscalationState, escalated}
use yip_yap_foss.Domain.Monitor.{Monitor}
use yip_yap_foss.Domain.Escalation.{EscalationStep, StepTarget}
use yip_yap_foss.Domain.Notification.{NotificationChannel}
use yip_yap_foss.Store.Alerts.{get_escalation_state, upsert_state, stored_state}
use yip_yap_foss.Escalation.World.{
  Env, World, alert_escalated, take_uuid, create_event, emit, record_escalation_step,
}
use yip_yap_foss.Escalation.Notify.{
  sendable, make_job, send_job, notify_users, notify_targets, is_suppressed, save_state,
  notify_step,
}
use yip_yap_foss.Escalation.Handlers.{try_update, update_alert}
use yip_yap_foss.Escalation.Tick.{
  Due, retry, advance, restart, next_state, enter_step, apply, step_channel_hint,
}

get_escalation_state-upsert :
    (i : String) (s : AlertEscalationState) (ss : List AlertEscalationState)
    → s.alert_id ≡ i
    → get_escalation_state i (upsert_state s ss) ≡ some (stored_state s)
unfolding get_escalation_state upsert_state
get_escalation_state-upsert i s [] h = ground (arith, eq_iff s.alert_id i)
get_escalation_state-upsert i s (t ∷ ts) h = ground (
  arith,
  eq_iff s.alert_id i,
  eq_iff t.alert_id i,
  eq_iff t.alert_id s.alert_id,
  get_escalation_state-upsert i s ts h,
)

notify_users-states :
    (env : Env) (a : Alert) (m : Monitor) (s : EscalationStep) (ch : NotificationChannel)
    (config : String) (us : List String) (w : World)
    → (notify_users env a m s ch config us w).states ≡ w.states
unfolding notify_users send_job create_event
notify_users-states env a m s ch config [] w = refl
notify_users-states env a m s ch config (u ∷ us) w =
    let job = make_job env a m s ch config u (env.uuid w.next_uuid) in
    ground (
      arith,
      notify_users-states env a m s ch config us (send_job env a ch.type u job (take_uuid w)),
    )

notify_targets-states :
    (env : Env) (a : Alert) (m : Monitor) (s : EscalationStep) (ts : List StepTarget) (w : World)
    → (notify_targets env a m s ts w).states ≡ w.states
unfolding notify_targets
notify_targets-states env a m s [] w = refl
notify_targets-states env a m s (t ∷ ts) w = elim (Option-cases (sendable env m t)) [
  | inl e ↦ rw (e, notify_targets) (notify_targets-states env a m s ts w)
  | inr ((us, ch, config), e) ↦
      rw (e, notify_targets)
        (notify_targets-states env a m s ts _ ∙ notify_users-states env a m s ch config us w)
]

-- The columns that steer the escalation; `last_notified_at` does not.
pub record SameCourse (s t : AlertEscalationState) : Type 0 where
  pub step : t.current_step_id ≡ s.current_step_id
  pub entered : t.step_entered_at ≡ s.step_entered_at
  pub retries : t.retry_count ≡ s.retry_count
  pub loops : t.notifications_sent ≡ s.notifications_sent

-- Some write of an escalation state fails.
abbrev pub Unsaved : Env → Type 0
Unsaved env = (s : AlertEscalationState) × (env.upsert_ok s ≡ false)

-- The row of the alert follows the new course, `next`, or its old one if a write failed.
abbrev pub Follows : Env → String → AlertEscalationState → AlertEscalationState → World → Type 0
Follows env i old next w =
    (row : AlertEscalationState) × (get_escalation_state i w.states ≡ some row)
    × ((Unsaved env × SameCourse old row) ⊎ SameCourse (stored_state next) row)

module _ (env : Env) (i : String) (old next : AlertEscalationState)
    (keyed : next.alert_id ≡ i) where
  -- The first write.
  save_state-Moves :
      (w : World)
      → get_escalation_state i w.states ≡ some old
      → Follows env i old next (save_state env next w)
  unfolding save_state
  save_state-Moves w found = elim (Bool-cases (env.upsert_ok next)) [
    | inl ok ↦ rw ok (
      stored_state next,
      get_escalation_state-upsert i next w.states keyed,
      inr (record { step = refl; entered = refl; retries = refl; loops = refl }),
    )
    | inr failed ↦ rw failed (
      old,
      found,
      inl ((next, failed), record { step = refl; entered = refl; retries = refl; loops = refl }),
    )
  ]

  save_state-Follows :
      (last : Option ℕ) (w : World)
      → Follows env i old next w
      → Follows env i old next (save_state env (record next { last_notified_at = last }) w)
  unfolding save_state
  save_state-Follows last w f =
      let s : AlertEscalationState = record next { last_notified_at = last } in
      elim (Bool-cases (env.upsert_ok s)) [
        | inl ok ↦ rw ok (
          stored_state s,
          get_escalation_state-upsert i s w.states keyed,
          inr (record { step = refl; entered = refl; retries = refl; loops = refl }),
        )
        | inr failed ↦ rw failed f
      ]

  notify_step-Follows :
      (a : Alert) (m : Monitor) (s : EscalationStep) (w : World)
      → Follows env i old next w
      → Follows env i old next (notify_step env a m s next w)
  unfolding notify_step
  notify_step-Follows a m s w f =
      if_rule (Follows env i old next) (is_suppressed env m) f (by_targets (env.get_targets s.id))
    where
      by_targets :
          (r : Option (List StepTarget))
          → Follows env i old next (
              let o : World = elim r [
                | none ↦ w
                | some ts ↦
                    notify_targets env a m s ts
                      (save_state env (record next { last_notified_at = some env.now }) w)
              ] in
              o)
      by_targets none = f
      by_targets (some ts) =
          let saved = save_state env (record next { last_notified_at = some env.now }) w in
          let (row, found, was) = save_state-Follows (some env.now) w f in
          (row, ap (get_escalation_state i) (notify_targets-states env a m s ts saved) ∙ found, was)

  same_states :
      (w w' : World) → w'.states ≡ w.states → Follows env i old next w → Follows env i old next w'
  same_states w w' e (row, found, was) = (row, ap (get_escalation_state i) e ∙ found, was)

  enter_step-Follows :
      (a : Alert) (m : Monitor) (s : EscalationStep) (w : World)
      → get_escalation_state i w.states ≡ some old
      → Follows env i old next (enter_step env a m s next w)
  unfolding enter_step emit create_event try_update update_alert
  enter_step-Follows a m s w found =
      let a' : Alert = record a { current_escalation_step = s.id } in
      let w₀ = save_state env next w in
      let w₁ = try_update env a' w₀ in
      let w₂ =
        emit env
          (alert_escalated a.org_id a.id a.monitor_id s.position (step_channel_hint env s.id)
            env.now)
          (create_event env a.id escalated "" "" w₁) in
      notify_step-Follows a' m s w₂ (same_states w₀ w₂ (ground arith) (save_state-Moves w found))

pub apply-Follows :
    (env : Env) (a : Alert) (m : Monitor) (old : AlertEscalationState) (due : Due) (w : World)
    → get_escalation_state a.id w.states ≡ some old
    → old.alert_id ≡ a.id
    → Follows env a.id old (next_state env old due) (apply env a m old due w)
unfolding apply next_state record_escalation_step
apply-Follows env a m old (retry s) w found keyed =
    let next = next_state env old (retry s) in
    notify_step-Follows env a.id old next keyed a m s (save_state env next w)
      (save_state-Moves env a.id old next keyed w found)
apply-Follows env a m old (advance s) w found keyed =
    let next = next_state env old (advance s) in
    let w' = record_escalation_step env a.org_id s.position w in
    enter_step-Follows env a.id old next keyed a m s w' (same w' (ground arith))
  where
    same : (w' : World) → w'.states ≡ w.states → get_escalation_state a.id w'.states ≡ some old
    same w' e = ap (get_escalation_state a.id) e ∙ found
apply-Follows env a m old (restart s n) w found keyed =
    let next = next_state env old (restart s n) in
    enter_step-Follows env a.id old next keyed a m s w found
