-- ===== src/Escalation/Tick.antt =====
-- internal/escalation/engine.go, `processFiringAlerts`: what one tick does for each firing alert.
-- `decide` is the ladder of guards of the loop's body, and `apply` the branch that it takes.
use yip_yap_foss.Prelude.{
  ℕ, suc, ◌+◌, ℤ, pos, String, Bool, false, Option, none, some, List, [], ◌∷◌, first, ltb_ℤ, leb_ℤ,
  is_blank, str_eq, if◌then◌else◌, ◌>>=◌, seconds, since,
}
use yip_yap_foss.Domain.Alert.{
  Alert, AlertEscalationState, NotificationsSent, blank, loop_meta, undecodable, escalated,
}
use yip_yap_foss.Domain.Monitor.{Monitor}
use yip_yap_foss.Domain.Escalation.{EscalationPolicy, EscalationStep}
use yip_yap_foss.Store.Alerts.{get_escalation_state, list_firing}
use yip_yap_foss.Store.Policies.{get_next_step}
use yip_yap_foss.Escalation.World.{
  Env, World, alert_escalated, create_event, emit, record_escalation_step,
}
use yip_yap_foss.Escalation.Notify.{notify_step, save_state}
use yip_yap_foss.Escalation.Handlers.{read_steps, try_update}

-- What is due for an alert: its current step again, the next step, or the first step again, with
-- the number of times that the policy has then started over.
pub data Due : Type 0 where
  retry : EscalationStep → Due
  advance : EscalationStep → Due
  restart : EscalationStep → ℕ → Due

-- `getLoopCount`.
abbrev pub get_loop_count : NotificationsSent → ℕ
get_loop_count blank = 0
get_loop_count (loop_meta n) = n
get_loop_count undecodable = 0

abbrev pub step_has_id : String → EscalationStep → Bool
step_has_id i s = str_eq s.id i

-- `policy.MaxLoops != nil && loopCount >= *policy.MaxLoops`.
abbrev pub is_exhausted : Option ℤ → ℕ → Bool
is_exhausted max count = elim max [ none ↦ false | some m ↦ leb_ℤ m (pos count) ]

-- No next step: the loop policy.
unfoldable pub decide_loop : EscalationPolicy → EscalationStep → AlertEscalationState → Option Due
decide_loop policy first_step state =
    let count = get_loop_count state.notifications_sent in
    if policy.loop
    then if is_exhausted policy.max_loops count then none else some (restart first_step (count + 1))
    else none

-- The wait is over and the retries are used up.
unfoldable pub decide_next :
    Env → String → EscalationStep → EscalationStep → AlertEscalationState → Option Due
unfolding decide_loop
decide_next env policy_id first_step current state =
    if env.next_step_ok
    then elim (get_next_step policy_id current.position env.steps) [
      | some next ↦ some (advance next)
      | none ↦ env.get_policy policy_id >>= λ policy. decide_loop policy first_step state
    ]
    else none

-- `elapsed < waitDuration`.
unfoldable pub is_waiting : Env → EscalationStep → AlertEscalationState → Bool
is_waiting env current state =
    ltb_ℤ (since env.now state.step_entered_at) (seconds current.wait_seconds)

-- The current step is known.
unfoldable pub decide_step :
    Env → String → EscalationStep → EscalationStep → AlertEscalationState → Option Due
unfolding is_waiting decide_next
decide_step env policy_id first_step current state =
    if is_waiting env current state
    then none
    else if ltb_ℤ (pos state.retry_count) current.repeat_count
    then some (retry current)
    else decide_next env policy_id first_step current state

-- The guards of the loop's body, from the monitor on; `none` is `continue`.
unfoldable pub decide : Env → Monitor → AlertEscalationState → Option Due
unfolding read_steps decide_step
decide env monitor state = if is_blank monitor.escalation_policy_id then none else do
  (first_step, steps) ← read_steps env monitor.escalation_policy_id
  current ← first (step_has_id state.current_step_id) steps
  decide_step env monitor.escalation_policy_id first_step current state

-- `stepChannelHint`.
unfoldable pub step_channel_hint : Env → String → String
step_channel_hint env step_id = elim (env.get_targets step_id) [
  | none ↦ ""
  | some [] ↦ ""
  | some (t ∷ _) ↦ elim (env.get_channel t.channel_id) [ none ↦ "" | some ch ↦ ch.type ]
]

-- Entering a step: save the state, move the alert, tell, and notify.
unfoldable pub enter_step :
    Env → Alert → Monitor → EscalationStep → AlertEscalationState → World → World
unfolding step_channel_hint
enter_step env alert monitor step state w =
    let alert' : Alert = record alert { current_escalation_step = step.id } in
    let w₁ = try_update env alert' (save_state env state w) in
    let w₂ =
      emit env
        (alert_escalated alert.org_id alert.id alert.monitor_id step.position
          (step_channel_hint env step.id) env.now)
        (create_event env alert.id escalated "" "" w₁) in
    notify_step env alert' monitor step state w₂

-- The state row as the branch that is taken rewrites it.
unfoldable pub next_state : Env → AlertEscalationState → Due → AlertEscalationState
next_state env state (retry step) = record state {
  retry_count = suc state.retry_count;
  step_entered_at = env.now;
}
next_state env state (advance step) = record state {
  current_step_id = step.id;
  step_entered_at = env.now;
  retry_count = 0;
}
next_state env state (restart step count) = record state {
  current_step_id = step.id;
  step_entered_at = env.now;
  retry_count = 0;
  notifications_sent = loop_meta count;
}

-- The branch that is taken.
unfoldable pub apply : Env → Alert → Monitor → AlertEscalationState → Due → World → World
unfolding enter_step next_state
apply env alert monitor state (retry step) w =
    let state' = next_state env state (retry step) in
    notify_step env alert monitor step state' (save_state env state' w)
apply env alert monitor state (advance step) w =
    enter_step env alert monitor step (next_state env state (advance step))
      (record_escalation_step env alert.org_id step.position w)
apply env alert monitor state (restart step count) w =
    enter_step env alert monitor step (next_state env state (restart step count)) w

-- `GetEscalationState`; an error of the read and no row are both `none`.
unfoldable pub read_state : Env → String → World → Option AlertEscalationState
read_state env i w = if env.get_state_ok i then get_escalation_state i w.states else none

-- The loop's body for one alert of the listing.
unfoldable pub process_alert : Env → Alert → World → World
unfolding decide apply read_state
process_alert env alert w = elim (read_state env alert.id w) [
  | none ↦ w
  | some state ↦ elim (env.get_monitor alert.monitor_id) [
    | none ↦ w
    | some monitor ↦ elim (decide env monitor state) [
      | none ↦ w
      | some due ↦ apply env alert monitor state due w
    ]
  ]
]

-- `for _, alert := range alerts`.
unfoldable pub process_all : Env → List Alert → World → World
unfolding process_alert
process_all env [] w = w
process_all env (a ∷ rest) w = process_all env rest (process_alert env a w)

-- `processFiringAlerts`.
unfoldable pub process_firing_alerts : Env → World → World
unfolding process_all
process_firing_alerts env w =
    if env.list_firing_ok then process_all env (list_firing w.alerts) w else w
