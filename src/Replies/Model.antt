-- ===== src/Replies/Model.antt =====
-- internal/cloudevents/reply/handlers: the tables that the handlers of replies read and write, and what decides
-- whether a read or a write succeeds.
use yip_yap_foss.Prelude.{ℕ, ℤ, String, Bool, Option, List}
use yip_yap_foss.Domain.Alert.{Alert}
use yip_yap_foss.Domain.Monitor.{Monitor, MonitorCheck}
use yip_yap_foss.Domain.Escalation.{EscalationStep}
use yip_yap_foss.Domain.Notification.{NotificationChannel}
use yip_yap_foss.Reply.Dispatcher.{DispatcherConfig}

-- The event types of internal/domain/alert.go that replies write.
pub data ReplyEventType : Type 0 where
  reply_claimed reply_enriched reply_linked : ReplyEventType
  duplicated ownership_transferred ack_with_context suppressed escalated_reply : ReplyEventType
  remediation_started remediation_result routed status_page_synced : ReplyEventType

-- Of the JSON detail the actor, where it has one.
pub record TimelineEvent : Type 0 where
  pub alert_id : String
  pub event_type : ReplyEventType
  pub actor : Option String
  pub sub : Option String

-- A write of the columns of migration 032, which no query of the modelled code reads.
pub data Mark : Type 0 where
  duplicate_of : String → Mark
  owned_by : String → String → Mark
  ack_reason : String → String → Mark

pub data RemediationStatus : Type 0 where
  in_progress success failure partial : RemediationStatus

pub record AlertRemediation : Type 0 where
  pub remediation_id : String
  pub alert_id : String
  pub org_id : String
  pub status : RemediationStatus
  pub started_at : ℕ
  pub completed_at : Option ℕ
  pub expires_at : ℤ
  pub description : String
  pub message : String
  pub artifact_url : String
  pub source_reply_id : String

-- A value of a match filter, as `encoding/json` decodes it; `items` has `none` for what is no text.
pub data FilterValue : Type 0 where
  text : String → FilterValue
  texts : List String → FilterValue
  items : List (Option String) → FilterValue
  other : FilterValue

pub record AlertSuppression : Type 0 where
  pub org_id : String
  pub alert_id : String
  pub monitor_id : String
  pub match_filter : List (String × FilterValue)
  pub expires_at : ℤ
  pub reason : String
  pub source_reply_id : String
  pub created_at : ℕ

pub record AlertRoutingRule : Type 0 where
  pub org_id : String
  pub target_channel_id : String
  pub match_filter : List (String × FilterValue)
  pub expires_at : ℤ
  pub reason : String
  pub source_reply_id : String
  pub created_at : ℕ

-- The message by its code points.
pub record AlertStatusPageRef : Type 0 where
  pub alert_id : String
  pub provider : String
  pub url : String
  pub public_message : List ℕ
  pub updated_at : ℕ
  pub source_reply_id : String

pub data AuditOutcome : Type 0 where
  accepted : AuditOutcome
  rejected : String → AuditOutcome
  handler_error : String → AuditOutcome

-- A row of the reply audit, without the two states and the time.
pub record AuditEntry : Type 0 where
  pub reply_id : String
  pub reply_type : String
  pub reply_source : String
  pub reply_sub : String
  pub org_id : String
  pub alert_id : String
  pub monitor_id : String
  pub channel_id : String
  pub outcome : AuditOutcome

-- Newest rows first in every table but `alerts` and `monitors`, whose order the queries do not show.
pub record Db : Type 0 where
  pub alerts : List Alert
  pub marks : List (String × Mark)
  pub monitors : List Monitor
  pub suppressions : List AlertSuppression
  pub remediations : List AlertRemediation
  pub routing_rules : List AlertRoutingRule
  pub status_page_refs : List AlertStatusPageRef
  pub events : List TimelineEvent
  pub audits : List AuditEntry

-- `User` and `Team`, as far as an owner is checked: the org, and whether the account is disabled.
pub record Owner : Type 0 where
  pub org_id : String
  pub disabled : Bool

pub record Url : Type 0 where
  pub scheme : String
  pub host : String

-- The clock; the reads of other tables, `none` being an error; `url.Parse`; the seconds between two instants, which
-- `Seconds` computes in floating point; and the writes that succeed, constraints of the schema apart.
pub record Env : Type 0 where
  pub now : ℕ
  pub config : DispatcherConfig
  pub parse_url : String → Option Url
  pub to_lower : String → String
  pub seconds_between : ℕ → ℕ → ℤ
  pub get_user : String → Option Owner
  pub get_team : String → Option Owner
  pub get_channel : String → Option NotificationChannel
  pub get_steps : String → Option (List EscalationStep)
  pub get_latest_check : String → Option MonitorCheck
  pub read_ok : Bool
  pub reread_ok : Bool
  pub recheck_ok : Bool
  pub update_ok : Bool
  pub resolve_ok : Bool
  pub insert_ok : Bool
  pub event_ok : Bool
  pub audit_ok : Bool

-- Why `Handle` returns an error.
pub data Fault : Type 0 where
  rejection : String → Fault
  alert_not_found : Fault
  store_error : String → Fault
