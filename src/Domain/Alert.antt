-- ===== src/Domain/Alert.antt =====
-- internal/domain/alert.go.
use yip_yap_foss.Prelude.{ℕ, String, Bool, true, false, Option}

pub data AlertStatus : Type 0 where
  firing acknowledged resolved : AlertStatus

-- `status != 'resolved'`, the test of the active-alert queries.
abbrev pub is_active : AlertStatus → Bool
is_active resolved = false
is_active _ = true

abbrev pub is_firing : AlertStatus → Bool
is_firing firing = true
is_firing _ = false

abbrev pub severity_critical : String
severity_critical = "critical"

abbrev pub severity_warning : String
severity_warning = "warning"

pub record Alert : Type 0 where
  pub id : String
  pub monitor_id : String
  pub org_id : String
  pub status : AlertStatus
  pub severity : String
  pub error : String
  pub started_at : ℕ
  pub acknowledged_at : Option ℕ
  pub acknowledged_by : String
  pub resolved_at : Option ℕ
  pub current_escalation_step : String
  pub incident_id : String

-- The types that the engine writes; the annotations of replies are not among them.
pub data AlertEventType : Type 0 where
  triggered notified ack escalated resolved_event : AlertEventType

pub record AlertEvent : Type 0 where
  pub id : String
  pub alert_id : String
  pub event_type : AlertEventType
  pub channel : String
  pub target_user_id : String
  pub created_at : ℕ

-- The JSON of `notifications_sent`, as far as the engine tells it apart: no bytes at all, an object
-- with `loop_count`, or bytes that do not decode into such an object (the default `[]`).
pub data NotificationsSent : Type 0 where
  blank : NotificationsSent
  loop_meta : ℕ → NotificationsSent
  undecodable : NotificationsSent

pub record AlertEscalationState : Type 0 where
  pub alert_id : String
  pub current_step_id : String
  pub step_entered_at : ℕ
  pub retry_count : ℕ
  pub last_notified_at : Option ℕ
  pub notifications_sent : NotificationsSent
