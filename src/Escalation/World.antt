-- ===== src/Escalation/World.antt =====
-- internal/escalation/engine.go: what the engine's methods act on. `World` is what they write (the
-- alert tables, the outbox, the bus, the CloudEvents that were emitted, the gauge of active alerts),
-- newest entry first in each log. The metrics are an interface: the model logs the calls, each with its org,
-- and sums the changes of the gauge over the orgs. `Env` is what they read and what decides whether a write succeeds.
use yip_yap_foss.Prelude.{ℕ, suc, ℤ, ◌+ℤ◌, String, Bool, Option, List, ◌∷◌, if◌then◌else◌}
use yip_yap_foss.Domain.Alert.{Alert, AlertEvent, AlertEventType, AlertEscalationState}
use yip_yap_foss.Domain.Monitor.{Monitor}
use yip_yap_foss.Domain.Escalation.{EscalationPolicy, EscalationStep, StepTarget}
use yip_yap_foss.Domain.Notification.{NotificationChannel, NotificationJob}
use yip_yap_foss.Store.Time.{stored_time}

-- The CloudEvents of the engine, with the fields of their payloads.
pub data CloudEvent : Type 0 where
  alert_fired : (org alert monitor severity reason : String) (fired_at : ℕ) → CloudEvent
  alert_resolved : (org alert monitor : String) (resolved_at : ℕ) → CloudEvent
  alert_acknowledged : (org alert monitor acked_by : String) (acked_at : ℕ) → CloudEvent
  alert_escalated :
      (org alert monitor : String) (step_index : ℤ) (to_channel : String) (escalated_at : ℕ)
      → CloudEvent

-- A notification as it left the engine: the job, and whether the outbox and the bus took it.
pub record Sent : Type 0 where
  pub job : NotificationJob
  pub enqueued : Bool
  pub published : Bool

pub record World : Type 0 where
  pub alerts : List Alert
  pub states : List AlertEscalationState
  pub events : List AlertEvent
  pub sent : List Sent
  pub emitted : List CloudEvent
  pub active_gauge : ℤ
  pub gauge_calls : List (String × ℤ)
  pub step_records : List (String × ℤ)
  pub next_uuid : ℕ

-- One call sees one clock reading, `now`. A read that is `none` stands for an error or for no row,
-- which the engine treats alike; `uuid` is the source of identifiers, and `render` the texts that
-- `fmt.Sprintf` and `base64` make.
pub record Env : Type 0 where
  pub now : ℕ
  pub get_monitor : String → Option Monitor
  pub get_policy : String → Option EscalationPolicy
  pub steps : List EscalationStep
  pub steps_ok : Bool
  pub next_step_ok : Bool
  pub get_targets : String → Option (List StepTarget)
  -- The `SuppressAlerts` flags of the windows that are active for a monitor.
  pub active_windows : String → ℕ → Option (List Bool)
  pub get_channel : String → Option NotificationChannel
  pub list_members : String → Option (List String)
  pub read_active_ok : Bool
  pub get_alert_ok : Bool
  pub get_state_ok : String → Bool
  pub list_firing_ok : Bool
  pub create_ok : Alert → Bool
  pub update_ok : Alert → Bool
  pub upsert_ok : AlertEscalationState → Bool
  pub delete_ok : String → Bool
  pub event_ok : AlertEvent → Bool
  pub enqueue_ok : NotificationJob → Bool
  pub publish_ok : NotificationJob → Bool
  pub marshal_ok : NotificationJob → Bool
  pub has_metrics : Bool
  pub has_emitter : Bool
  pub emit_ok : CloudEvent → Bool
  -- `nil`, or the encryption of a channel's configuration.
  pub envelope : Option (String → Option String)
  -- base64 of the version byte and the configuration.
  pub base64 : ℕ → String → String
  pub uuid : ℕ → String
  -- `Alert: <name> is <status>` and `<alert>-<step>-<user>`.
  pub format_message : String → String → String
  pub format_dedupe_key : String → String → String → String

-- `uuid.New().String()`.
unfoldable pub take_uuid : World → World
take_uuid w = record w { next_uuid = suc w.next_uuid }

-- `createEvent`: a failed write is logged, and the caller goes on.
unfoldable pub create_event : Env → String → AlertEventType → String → String → World → World
unfolding take_uuid
create_event env alert_id event_type channel target_user_id w =
    let evt : AlertEvent = record {
      id = env.uuid w.next_uuid;
      alert_id = alert_id;
      event_type = event_type;
      channel = channel;
      target_user_id = target_user_id;
      created_at = stored_time env.now;
    } in
    let w' = take_uuid w in if env.event_ok evt then record w' { events = evt ∷ w'.events } else w'

-- `cloudevents.Emit…`: a nil emitter does nothing, and an error is only logged.
unfoldable pub emit : Env → CloudEvent → World → World
emit env ce w =
    if env.has_emitter
    then if env.emit_ok ce then record w { emitted = ce ∷ w.emitted } else w
    else w

-- `metrics.AddActiveAlert`.
unfoldable pub add_active_alert : Env → String → ℤ → World → World
add_active_alert env org_id delta w =
    if env.has_metrics
    then record w {
      active_gauge = w.active_gauge +ℤ delta;
      gauge_calls = (org_id, delta) ∷ w.gauge_calls;
    }
    else w

-- `metrics.RecordEscalationStep`.
unfoldable pub record_escalation_step : Env → String → ℤ → World → World
record_escalation_step env org_id position w =
    if env.has_metrics then record w { step_records = (org_id, position) ∷ w.step_records } else w
