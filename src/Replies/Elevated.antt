-- ===== src/Replies/Elevated.antt =====
-- internal/cloudevents/reply/handlers: escalated.go, route.go and monitor_deregister.go, which want the trust of the channel.
use yip_yap_foss.Prelude.{
  ℕ, ℤ, pos, ◌+ℤ◌, leb_ℤ, ltb_ℤ, seconds, ltb, ◌==◌, Bool, true, false, not, ◌&&◌, ◌||◌, String,
  str_eq, is_blank, Option, none, some, List, [], ◌∷◌, any, first, if◌then◌else◌,
}
use yip_yap_foss.Domain.Alert.{Alert}
use yip_yap_foss.Domain.Monitor.{Monitor}
use yip_yap_foss.Domain.Escalation.{EscalationStep}
use yip_yap_foss.Domain.Notification.{NotificationChannel}
use yip_yap_foss.Store.Alerts.{update}
use yip_yap_foss.Reply.Dispatcher.{Handled, clamp_route_duration}
use yip_yap_foss.Replies.Text.{trimmed_len}
use yip_yap_foss.Replies.Model.{escalated_reply, routed, FilterValue, AlertRoutingRule, Db, Env}
use yip_yap_foss.Replies.Common.{
  Result, warn_and_reject, accept, fail_write, guarded, decoded, cross_alert, alert_scope,
  effective_alert_id, missing_alert, too_long, foreign, load_and_verify, annotate, bad_filter,
  is_monitor, get_monitor,
}

abbrev pub needs_trust : Env → Bool × String
needs_trust env = (not env.config.trust_elevated, "trust_flag_required")

-- `step_index` is 0 where the reply has none.
pub record EscalatedData : Type 0 where
  pub alert_id : String
  pub new_severity : String
  pub step_index : ℤ
  pub reason : String

-- `allowedEscalationSeverities`, whose values are its keys.
unfoldable pub allowed_severity : String → Bool
allowed_severity severity = any (str_eq severity) ("critical" ∷ "warning" ∷ "info" ∷ [])

abbrev eq_ℤ : ℤ → ℤ → Bool
eq_ℤ a b = leb_ℤ a b && leb_ℤ b a

abbrev at_position : ℤ → EscalationStep → Bool
at_position k s = eq_ℤ s.position k

-- `lookupEscalationStepUUID`.
unfoldable pub lookup_step : Env → String → ℤ → List Monitor → Option EscalationStep
unfolding get_monitor
lookup_step env monitor_id index monitors = elim (get_monitor monitor_id monitors) [
  | none ↦ none
  | some m ↦
      if is_blank m.escalation_policy_id
      then none
      else elim (env.get_steps m.escalation_policy_id) [
        | none ↦ none
        | some steps ↦ first (at_position index) steps
      ]
]

-- The alert that is written back, if the step is there.
unfoldable pub escalated_alert : Env → EscalatedData → Alert → List Monitor → Option Alert
unfolding lookup_step
escalated_alert env fields before monitors =
    let severe : Alert =
      if is_blank fields.new_severity
      then before
      else record before { severity = fields.new_severity } in
    if ltb_ℤ (pos 0) fields.step_index
    then elim (lookup_step env before.monitor_id fields.step_index monitors) [
      | none ↦ none
      | some step ↦ some (record severe { current_escalation_step = step.id })
    ]
    else some severe

-- `EscalatedHandler.Handle`, once the alert is verified.
unfoldable pub escalate : Env → Handled → String → EscalatedData → Alert → Db → Result
unfolding escalated_alert update
escalate env call i fields before db = elim (escalated_alert env fields before db.monitors) [
  | none ↦ warn_and_reject env call "invalid_step_index" db
  | some mutated ↦ elim (if env.update_ok then update mutated db.alerts else none) [
    | none ↦ fail_write env call "update_alert" db
    | some rows ↦
        accept env call
          (annotate env i escalated_reply none (some call.sub) (record db { alerts = rows }))
  ]
]

-- The checks of `Handle`, in order.
abbrev pub escalated_checks : Handled → EscalatedData → List (Bool × String)
escalated_checks call fields =
    too_long 512 fields.reason
    ∷ cross_alert call fields.alert_id
    ∷ alert_scope call
    ∷ (
      not (is_blank fields.new_severity) && not (allowed_severity fields.new_severity),
      "invalid_severity",
    )
    ∷ (is_blank fields.new_severity && eq_ℤ fields.step_index (pos 0), "no_mutation")
    ∷ missing_alert call fields.alert_id
    ∷ []

-- `EscalatedHandler.Handle`.
unfoldable pub handle_escalated : Env → Handled → Option EscalatedData → Db → Result
unfolding allowed_severity
handle_escalated env call payload = guarded env call (needs_trust env ∷ []) (
    decoded env call payload λ fields.
      let i = effective_alert_id call.entry.alert_id fields.alert_id in
      guarded env call (escalated_checks call fields)
        (load_and_verify env call i (escalate env call i fields)))

-- The zero time is 0.
pub record RouteData : Type 0 where
  pub alert_id : String
  pub target_channel_id : String
  pub match_filter : List (String × FilterValue)
  pub expires_at : ℕ
  pub reason : String

-- The checks of the target channel.
unfoldable pub target_failure : Handled → Option NotificationChannel → Option String
target_failure call none = some "unknown_target_channel"
target_failure call (some ch) =
    if foreign call ch.org_id
    then some "cross_org_target"
    else if ch.enabled
    then none
    else some "target_channel_disabled"

-- When the rule expires: as requested, or at the cap.
unfoldable pub route_expiry : Env → ℕ → ℤ
unfolding clamp_route_duration seconds ◌+ℤ◌
route_expiry env requested_at =
    let requested = env.seconds_between env.now requested_at in
    let clamped = clamp_route_duration env.config requested in
    if ltb_ℤ clamped requested then pos env.now +ℤ seconds clamped else pos requested_at

unfoldable pub routing_rule : Env → Handled → RouteData → AlertRoutingRule
unfolding route_expiry
routing_rule env call fields = record {
  org_id = call.entry.org_id;
  target_channel_id = fields.target_channel_id;
  match_filter = fields.match_filter;
  expires_at = route_expiry env fields.expires_at;
  reason = fields.reason;
  source_reply_id = call.event.id;
  created_at = env.now;
}

-- `RouteHandler.Handle`, once the alert is verified.
unfoldable pub add_rule : Env → Handled → String → RouteData → Db → Result
unfolding routing_rule
add_rule env call i fields db =
    let db' : Db = record db { routing_rules = routing_rule env call fields ∷ db.routing_rules } in
    if env.insert_ok
    then accept env call
        (if is_blank i then db' else annotate env i routed none (some call.sub) db')
    else fail_write env call "create_routing_rule" db

-- `RouteHandler.Handle`, from the channel's lookup on.
unfoldable pub verify_target : Env → Handled → String → RouteData → Db → Result
unfolding target_failure
verify_target env call i fields db =
    elim (target_failure call (env.get_channel fields.target_channel_id)) [
      | some reason ↦ warn_and_reject env call reason db
      | none ↦
          guarded env call
            ((fields.expires_at == 0 || not (ltb env.now fields.expires_at), "expires_not_future")
              ∷ [])
            (load_and_verify env call i (λ _. add_rule env call i fields)) db
    ]

-- `len(data.MatchFilter) == 0`.
abbrev is_unfiltered : List (String × FilterValue) → Bool
is_unfiltered [] = true
is_unfiltered (_ ∷ _) = false

-- The checks of `Handle`, in order.
abbrev pub route_checks : Handled → RouteData → List (Bool × String)
route_checks call fields =
    cross_alert call fields.alert_id
    ∷ alert_scope call
    ∷ (is_blank fields.target_channel_id, "missing_target")
    ∷ too_long 512 fields.reason
    ∷ (is_unfiltered fields.match_filter, "empty_match_filter")
    ∷ (bad_filter fields.match_filter, "filter_invalid")
    ∷ []

-- `RouteHandler.Handle`.
unfoldable pub handle_route : Env → Handled → Option RouteData → Db → Result
unfolding bad_filter
handle_route env call payload = guarded env call (needs_trust env ∷ []) (
    decoded env call payload λ fields.
      guarded env call (route_checks call fields)
        (verify_target env call (effective_alert_id call.entry.alert_id fields.alert_id) fields))

pub record DeregisterData : Type 0 where
  pub monitor_id : String
  pub reason : String

-- The `UPDATE` of `Disable`.
unfoldable pub disable_rows : String → List Monitor → List Monitor
disable_rows i [] = []
disable_rows i (m ∷ ms) =
    if is_monitor i m then record m { enabled = false } ∷ ms else m ∷ disable_rows i ms

-- `MonitorDeregisterHandler.Handle`, from the monitor's lookup on; `Disable` finds the row that was read.
unfoldable pub deregister : Env → Handled → String → Db → Result
unfolding get_monitor disable_rows
deregister env call i db = elim (if env.read_ok then get_monitor i db.monitors else none) [
  | none ↦ warn_and_reject env call "unknown_monitor" db
  | some m ↦
      if foreign call m.org_id
      then warn_and_reject env call "cross_org_monitor" db
      else if env.update_ok
      then accept env call (record db { monitors = disable_rows i db.monitors })
      else fail_write env call "disable" db
]

-- The checks of `Handle`, in order.
abbrev pub monitor_deregister_checks : Handled → DeregisterData → List (Bool × String)
monitor_deregister_checks call fields =
    (is_blank fields.monitor_id, "missing_monitor_id")
    ∷ (
      not (is_blank call.entry.monitor_id) && not (str_eq call.entry.monitor_id fields.monitor_id),
      "cross_monitor",
    )
    ∷ too_long 512 fields.reason
    ∷ (ltb (trimmed_len fields.reason) 16, "reason_too_short")
    ∷ []

-- `MonitorDeregisterHandler.Handle`.
unfoldable pub handle_monitor_deregister : Env → Handled → Option DeregisterData → Db → Result
handle_monitor_deregister env call payload =
    guarded env call
      ((not env.config.trust_elevated || not env.config.allow_deregister, "trust_flag_required")
        ∷ [])
      (decoded env call payload λ fields.
        guarded env call (monitor_deregister_checks call fields)
          (deregister env call fields.monitor_id))
