-- ===== src/Escalation/Notify.antt =====
-- internal/escalation/engine.go, `notifyStep` and what it calls; oncall.go, engine_quota.go and
-- engine_services.go, whose methods do nothing in this build.
use yip_yap_foss.Prelude.{
  String, Bool, true, false, ◌&&◌, Option, none, some, List, [], ◌∷◌, any, str_eq, if◌then◌else◌,
  ◌>>=◌,
}
use yip_yap_foss.Domain.Alert.{
  Alert, AlertStatus, firing, acknowledged, resolved, AlertEscalationState, notified,
}
use yip_yap_foss.Domain.Monitor.{Monitor}
use yip_yap_foss.Domain.Escalation.{
  EscalationStep, StepTarget, TargetType, on_call_primary, on_call_secondary, user, team, channel,
  other,
}
use yip_yap_foss.Domain.Notification.{NotificationChannel, NotificationJob}
use yip_yap_foss.Store.Alerts.{upsert_state}
use yip_yap_foss.Escalation.World.{Env, World, take_uuid, create_event}

-- The `OnCallResolver` of this build refuses every team.
unfoldable pub oncall_resolve : String → Option String
oncall_resolve team_id = none

abbrev single : String → List String
single s = s ∷ []

-- `resolveTarget`, by the kind of the target.
resolve_kind : Env → TargetType → String → Option (List String)
unfolding oncall_resolve
resolve_kind env on_call_primary id = oncall_resolve id >>= λ u. some (single u)
resolve_kind env on_call_secondary id = oncall_resolve id >>= λ u. some (single u)
resolve_kind env user id = some (single id)
resolve_kind env team id = env.list_members id
resolve_kind env channel id = some (single "_channel")
resolve_kind env other id = none

unfoldable pub resolve_target : Env → StepTarget → Option (List String)
unfolding resolve_kind
resolve_target env t = resolve_kind env t.target_type t.target_id

-- `checkSMSVoiceQuota` of this build.
abbrev pub check_sms_voice_quota : NotificationChannel → String → Bool
check_sms_voice_quota ch org_id = true

-- `enrichJobWithServiceContext` of this build.
abbrev pub enrich_job_with_service_context : NotificationJob → NotificationJob
enrich_job_with_service_context job = job

-- The version byte and the channel's configuration, in base64; `none` if encryption fails.
unfoldable pub versioned_config : Env → NotificationChannel → Option String
versioned_config env ch = elim env.envelope [
  | none ↦ some (env.base64 0 ch.config)
  | some encrypt ↦ encrypt ch.config >>= λ enc. some (env.base64 1 enc)
]

-- The channel belongs to the monitor's org, is enabled and is within its quota.
unfoldable pub is_usable : NotificationChannel → Monitor → Bool
is_usable ch monitor =
    str_eq ch.org_id monitor.org_id && ch.enabled && check_sms_voice_quota ch monitor.org_id

-- The first half of the loop's body: the guards that skip a target.
unfoldable pub sendable :
    Env → Monitor → StepTarget → Option (List String × NotificationChannel × String)
unfolding resolve_target versioned_config is_usable
sendable env monitor target = resolve_target env target >>= λ users.
    env.get_channel target.channel_id >>= λ ch.
    if is_usable ch monitor
    then (versioned_config env ch >>= λ config. some (users, ch, config))
    else none

abbrev status_text : AlertStatus → String
status_text firing = "firing"
status_text acknowledged = "acknowledged"
status_text resolved = "resolved"

-- The `domain.NotificationJob` for one user.
unfoldable pub make_job :
    Env
    → Alert
    → Monitor
    → EscalationStep
    → NotificationChannel
    → String
    → String
    → String
    → NotificationJob
make_job env alert monitor step ch config user_id job_id = enrich_job_with_service_context (record {
  id = job_id;
  alert_id = alert.id;
  org_id = alert.org_id;
  monitor_name = monitor.name;
  severity = alert.severity;
  channel = ch.type;
  target_config = config;
  message = env.format_message monitor.name (status_text alert.status);
  dedupe_key = env.format_dedupe_key alert.id step.id user_id;
})

-- The dual write of one job, and its event. A job that does not marshal is skipped.
unfoldable pub send_job : Env → Alert → String → String → NotificationJob → World → World
unfolding create_event
send_job env alert channel_type user_id job w =
    if env.marshal_ok job
    then create_event env alert.id notified channel_type user_id (record w {
      sent =
          record { job = job; enqueued = env.enqueue_ok job; published = env.publish_ok job }
          ∷ w.sent;
    })
    else w

-- `for _, userID := range userIDs`.
unfoldable pub notify_users :
    Env
    → Alert
    → Monitor
    → EscalationStep
    → NotificationChannel
    → String
    → List String
    → World
    → World
unfolding make_job send_job take_uuid
notify_users env alert monitor step ch config [] w = w
notify_users env alert monitor step ch config (u ∷ us) w =
    notify_users env alert monitor step ch config us (
      send_job env alert ch.type u
        (make_job env alert monitor step ch config u (env.uuid w.next_uuid)) (take_uuid w))

-- `for _, target := range targets`.
unfoldable pub notify_targets :
    Env → Alert → Monitor → EscalationStep → List StepTarget → World → World
unfolding sendable notify_users
notify_targets env alert monitor step [] w = w
notify_targets env alert monitor step (t ∷ ts) w =
    notify_targets env alert monitor step ts (elim (sendable env monitor t) [
      | none ↦ w
      | some (users, ch, config) ↦ notify_users env alert monitor step ch config users w
    ])

-- Some active window of the monitor suppresses alerts; a failed read suppresses nothing.
unfoldable pub is_suppressed : Env → Monitor → Bool
is_suppressed env monitor = elim (env.active_windows monitor.id env.now) [
  | none ↦ false
  | some flags ↦ any (λ f. f) flags
]

-- `UpsertEscalationState`, its error ignored.
unfoldable pub save_state : Env → AlertEscalationState → World → World
unfolding upsert_state
save_state env s w = if env.upsert_ok s then record w { states = upsert_state s w.states } else w

-- `notifyStep`.
unfoldable pub notify_step :
    Env → Alert → Monitor → EscalationStep → AlertEscalationState → World → World
unfolding is_suppressed save_state notify_targets
notify_step env alert monitor step state w =
    if is_suppressed env monitor then w else elim (env.get_targets step.id) [
      | none ↦ w
      | some targets ↦
          notify_targets env alert monitor step targets
            (save_state env (record state { last_notified_at = some env.now }) w)
    ]
