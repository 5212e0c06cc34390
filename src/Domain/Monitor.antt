-- ===== src/Domain/Monitor.antt =====
-- internal/domain/monitor.go. Of `Monitor` the fields that the scheduler and the engine read; its
-- `Config`, raw JSON, is a text.
use yip_yap_foss.Prelude.{ℕ, ℤ, String, Bool, Option}

pub data MonitorType : Type 0 where
  http tcp ping dns heartbeat : MonitorType

pub data CheckStatus : Type 0 where
  up down degraded : CheckStatus

pub record Monitor : Type 0 where
  pub id : String
  pub org_id : String
  pub name : String
  pub type : MonitorType
  pub config : String
  pub interval_seconds : ℤ
  pub timeout_seconds : ℤ
  pub latency_warning_ms : ℤ
  pub latency_critical_ms : ℤ
  pub down_severity : String
  pub degraded_severity : String
  pub escalation_policy_id : String
  pub auto_resolve : Bool
  pub muted : Bool
  pub enabled : Bool

pub record MonitorCheck : Type 0 where
  pub id : String
  pub monitor_id : String
  pub status : CheckStatus
  pub latency_ms : ℤ
  pub status_code : ℤ
  pub error : String
  pub metadata : String
  pub tls_expiry : Option ℕ
  pub checked_at : ℕ
  pub matched_state_id : String
