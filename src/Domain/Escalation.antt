-- ===== src/Domain/Escalation.antt =====
-- internal/domain/escalation.go, and the two fields of a maintenance window that a step reads.
use yip_yap_foss.Prelude.{ℤ, String, Bool, Option}

pub record EscalationPolicy : Type 0 where
  pub id : String
  pub org_id : String
  pub name : String
  pub loop : Bool
  pub max_loops : Option ℤ

pub record EscalationStep : Type 0 where
  pub id : String
  pub policy_id : String
  pub position : ℤ
  pub wait_seconds : ℤ
  pub repeat_count : ℤ
  pub repeat_interval_seconds : ℤ
  pub is_terminal : Bool

-- `other` is any text that is none of the constants.
pub data TargetType : Type 0 where
  on_call_primary on_call_secondary user team channel other : TargetType

pub record StepTarget : Type 0 where
  pub id : String
  pub step_id : String
  pub target_type : TargetType
  pub target_id : String
  pub channel_id : String
  pub simultaneous : Bool
