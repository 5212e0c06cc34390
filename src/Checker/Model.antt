-- ===== src/Checker/Model.antt =====
-- internal/checker/scheduler.go and checker.go: what the scheduler keeps and what it reads. The checks
-- themselves, the texts that `fmt` makes and the decoding of JSON are parameters.
use yip_yap_foss.Prelude.{ℕ, ℤ, String, Bool, Option, List}
use yip_yap_foss.Domain.Monitor.{MonitorType, CheckStatus, MonitorCheck}
use yip_yap_foss.Checker.Rules.{MonitorMatchRule, Texts}

pub record Result : Type 0 where
  pub status : CheckStatus
  pub latency_ms : ℤ
  pub status_code : ℤ
  pub error : String
  pub metadata : String
  pub tls_expiry : Option ℕ
  pub body : String
  pub header : String → String

-- `Check`: a result, or an error with its text.
pub data CheckOutcome : Type 0 where
  checked : Result → CheckOutcome
  check_failed : String → CheckOutcome

pub data Subject : Type 0 where
  alert_trigger alert_recover : Subject

pub record AlertEvent : Type 0 where
  pub org_id : String
  pub monitor_id : String
  pub monitor_name : String
  pub status : CheckStatus
  pub latency_ms : ℤ
  pub status_code : ℤ
  pub error : String
  pub checked_at : ℕ

-- What was handed to the bus, and whether it took it.
pub record Published : Type 0 where
  pub subject : Subject
  pub event : AlertEvent
  pub delivered : Bool

pub data MonitorEvent : Type 0 where
  monitor_up : (monitor check : String) (latency : ℤ) (at : ℕ) → MonitorEvent
  monitor_down : (monitor check reason : String) (at : ℕ) → MonitorEvent
  monitor_degraded : (monitor check reason : String) (at : ℕ) → MonitorEvent
  heartbeat_missed : (monitor : String) (expected_by : ℤ) (last_seen_at : Option ℕ) → MonitorEvent

-- The scheduler's state and what it has sent, newest first.
pub record World : Type 0 where
  pub last_status : List (String × CheckStatus)
  pub enqueued : List MonitorCheck
  pub published : List Published
  pub emitted : List MonitorEvent
  pub next_uuid : ℕ

pub record Env : Type 0 where
  pub now : ℕ
  pub check : MonitorType → String → CheckOutcome
  -- The rules of a monitor, where the store has them and the read goes through.
  pub rules : String → Option (List MonitorMatchRule)
  pub texts : Texts
  -- `GetLatest`, as the DNS comparison reads it, and as the previous status is seeded from it, which
  -- `executeCheck` does after the new check is on its way to the table.
  pub get_latest : String → Option MonitorCheck
  pub seed_latest : String → Option MonitorCheck
  -- An error of the read is `none`.
  pub get_latest_heartbeat_ping : String → Option (Option MonitorCheck)
  -- `DNSCheckConfig.Expected` and `HeartbeatCheckConfig.GracePeriodSeconds`, where the configuration decodes.
  pub dns_expected : String → Option String
  pub grace_period_seconds : String → Option ℤ
  pub dns_metadata_decodes : String → Bool
  pub has_emitter : Bool
  pub emit_ok : MonitorEvent → Bool
  pub publish_ok : Published → Bool
  pub uuid : ℕ → String
  pub critical_latency : ℤ → ℤ → String
  pub warning_latency : ℤ → ℤ → String
  pub records_changed : String → String → String
  pub no_heartbeat_in : ℤ → ℕ → String
