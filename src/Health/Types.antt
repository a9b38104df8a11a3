-- ===== src/Health/Types.antt =====
-- The types of packages/hds-brain/src/health.ts. The snapshot holds the fields of HDSRuntimeSnapshot that
-- the evaluation reads.
use blue_tanuki.Base.{ℕ, String, Bool, Option, List, test}
use blue_tanuki.Boundary.{Precondition}
use blue_tanuki.Health.Invariants.{RuntimeInvariantValues, RuntimeInvariantEvidenceReport}

pub data HealthCheckStatus : Type 0 where
  pass warn fail unknown : HealthCheckStatus

unfoldable pub HealthCheckStatus-discrete : Discrete HealthCheckStatus
HealthCheckStatus-discrete = hlevel

abbrev pub has_status : HealthCheckStatus → HealthCheckStatus → Bool
has_status a b = test (HealthCheckStatus-discrete a b)

pub data HdsBrainHealthStatus : Type 0 where
  ok fail_safe : HdsBrainHealthStatus

pub data AuditAppendabilityStatus : Type 0 where
  probed : Bool → AuditAppendabilityStatus
  memory_only not_configured : AuditAppendabilityStatus

pub record RuntimePathCheck : Type 0 where
  pub path : String
  pub readable : Option Bool
  pub writable : Option Bool

pub record RuntimeDependencyCheck : Type 0 where
  pub name : String
  pub available : Option Bool

pub record HdsRuntimeHealthCheck : Type 0 where
  pub name : String
  pub status : HealthCheckStatus
  pub expected : String
  pub actual : String
  pub evidence : String

pub record HdsBrainHealthOptions : Type 0 where
  pub hds_available : Option Bool
  pub policy_valid : Option Bool
  pub approval_gate_available : Option Bool
  pub required_directories : Option (List RuntimePathCheck)
  pub storage_paths : Option (List RuntimePathCheck)
  pub optional_dependencies : Option (List RuntimeDependencyCheck)
  pub audit_appendable : Option AuditAppendabilityStatus

pub record HealthSnapshot : Type 0 where
  pub audit_entries : ℕ
  pub audit_chain_valid : Bool
  pub memory_configured : Bool
  pub memory_chain_valid : Option Bool
  pub invariants : RuntimeInvariantValues
  pub runtime_invariants : RuntimeInvariantEvidenceReport

-- What Node answers about the process: none where the function is missing. The uptime is in
-- milliseconds, and never negative.
pub record ProcessTelemetry : Type 0 where
  pub uptime_ms : Option ℕ
  pub rss : Option ℕ

-- The literal fields (`hds_calls_llm`, `downstream_limbs_are_authority`, `used_for_authority`, all
-- false) are left out.
pub record HdsBrainHealth : Type 0 where
  pub status : HdsBrainHealthStatus
  pub config_validation_status : HealthCheckStatus
  pub runtime_health_status : HealthCheckStatus
  pub runtime_checks : List HdsRuntimeHealthCheck
  pub hds_available : Bool
  pub policy_valid : Bool
  pub audit_chain_valid : Bool
  pub runtime_invariants_ok : Bool
  pub approval_gate_available : Bool
  pub memory_chain_valid : Option Bool
  pub fail_safe : Bool
  pub failed_preconditions : List Precondition
  pub command_execution_allowed : Bool
  pub downstream_execution_allowed : Bool
  pub fail_safe_reason : String
  pub operator_next_action : Option String
  pub safe_to_retry : Bool
  pub checked_at_ms : ℕ
