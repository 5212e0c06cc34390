-- ===== src/Domain/Notification.antt =====
-- internal/domain/notification.go. Of `NotificationJob` the fields that this build fills.
use yip_yap_foss.Prelude.{String, Bool}

pub record NotificationChannel : Type 0 where
  pub id : String
  pub org_id : String
  pub type : String
  pub name : String
  pub config : String
  pub enabled : Bool

pub record NotificationJob : Type 0 where
  pub id : String
  pub alert_id : String
  pub org_id : String
  pub monitor_name : String
  pub severity : String
  pub channel : String
  pub target_config : String
  pub message : String
  pub dedupe_key : String

pub record AckEvent : Type 0 where
  pub alert_id : String
  pub user_id : String
  pub channel : String
