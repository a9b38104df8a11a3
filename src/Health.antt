-- ===== src/Health.antt =====
-- packages/hds-brain/src/health.ts: the self-health of HDS-BRAIN.
pub mod Invariants
pub mod Types
pub mod Checks
pub mod Laws
mod Tests
use blue_tanuki.Base.{
  ℕ, String, Bool, true, false, not, ◌&&◌, ◌||◌, Option, none, some, List, [], ◌∷◌, ◌++◌, map, any,
  or_else, if◌then◌else◌, test,
}
use blue_tanuki.Base.Text.{◌<>◌, show}
use blue_tanuki.Boundary.{
  FailSafeInput, Precondition, Precondition-discrete, evaluate_fail_safe_boundary,
}
use blue_tanuki.Health.Invariants.{
  RuntimeInvariantValues, RuntimeInvariantEvidenceReport, ReportBody, runtime_invariant_values_ok,
  runtime_invariant_report_ok,
}
use blue_tanuki.Health.Types.{
  HealthCheckStatus, HealthCheckStatus-discrete, has_status, HdsBrainHealthStatus,
  AuditAppendabilityStatus, RuntimePathCheck, RuntimeDependencyCheck, HdsRuntimeHealthCheck,
  HdsBrainHealthOptions, HealthSnapshot, ProcessTelemetry, HdsBrainHealth,
}
use blue_tanuki.Health.Checks.{
  pass_or_fail, aggregate_runtime_status, build_runtime_checks, next_action,
}

-- what the fail-safe boundary is asked
abbrev pub fail_safe_input : HealthSnapshot → HdsBrainHealthOptions → Bool → FailSafeInput
fail_safe_input snapshot opts runtime_invariants_ok = record {
  hds_available = or_else opts.hds_available true;
  policy_valid = or_else opts.policy_valid true;
  audit_chain_valid = snapshot.audit_chain_valid;
  runtime_invariants_valid = runtime_invariants_ok;
  approval_gate_available = or_else opts.approval_gate_available true;
  memory_chain_valid = snapshot.memory_chain_valid;
}

module _ (digest : ReportBody → String) where
  unfoldable pub runtime_ok : HealthSnapshot → Bool
  runtime_ok snapshot =
      runtime_invariant_values_ok snapshot.invariants
      && runtime_invariant_report_ok digest snapshot.runtime_invariants

  unfoldable pub evaluate_hds_brain_health :
      ProcessTelemetry → ℕ → HealthSnapshot → HdsBrainHealthOptions → HdsBrainHealth
  evaluate_hds_brain_health process now snapshot opts =
      let runtime_invariants_ok = runtime_ok snapshot in
      let input = fail_safe_input snapshot opts runtime_invariants_ok in
      let fail_safe = evaluate_fail_safe_boundary input in
      let runtime_checks = build_runtime_checks process snapshot opts runtime_invariants_ok in
      record {
        status =
            if fail_safe.base.allowed
            then HdsBrainHealthStatus.ok
            else HdsBrainHealthStatus.fail_safe;
        config_validation_status = pass_or_fail input.policy_valid;
        runtime_health_status = aggregate_runtime_status runtime_checks;
        runtime_checks = runtime_checks;
        hds_available = input.hds_available;
        policy_valid = input.policy_valid;
        audit_chain_valid = snapshot.audit_chain_valid;
        runtime_invariants_ok = runtime_invariants_ok;
        approval_gate_available = input.approval_gate_available;
        memory_chain_valid = snapshot.memory_chain_valid;
        fail_safe = not fail_safe.base.allowed;
        failed_preconditions = fail_safe.failed_preconditions;
        command_execution_allowed = fail_safe.command_execution_allowed;
        downstream_execution_allowed = fail_safe.downstream_execution_allowed;
        fail_safe_reason = fail_safe.base.reason;
        operator_next_action = next_action fail_safe.failed_preconditions;
        safe_to_retry = fail_safe.base.allowed;
        checked_at_ms = now;
      }
