-- ===== src/Health/Tests.antt =====
-- Health with an unverified memory chain, and a report with one violated invariant.
use blue_tanuki.Base.{String, ◌≡◌, ◌↔◌, Bool, true, false, not, Option, none, some}
use blue_tanuki.Health.Types.{HdsBrainHealthOptions, HealthSnapshot, ProcessTelemetry}
use blue_tanuki.Health.{evaluate_hds_brain_health}
use blue_tanuki.Health.Invariants.{
  RuntimeInvariantKey, ReportBody, build_runtime_invariant_evidence, runtime_invariant_report_ok,
  values_of,
}
use blue_tanuki.Health.Laws.{
  IsExpected, IsReady, evaluate_hds_brain_health_iff, build_runtime_invariant_evidence-report_ok,
}

abbrev digest : ReportBody → String
digest body = "report"

abbrev violated : RuntimeInvariantKey → Option Bool
violated RuntimeInvariantKey.hds_calls_llm = some true
violated _ = none

abbrev process : ProcessTelemetry
process = record { uptime_ms = none; rss = none }

snapshot : HealthSnapshot
snapshot = record {
  audit_entries = 0;
  audit_chain_valid = true;
  memory_configured = true;
  memory_chain_valid = some false;
  invariants = values_of (λ _. none);
  runtime_invariants = build_runtime_invariant_evidence digest 0 (λ _. none);
}

opts : HdsBrainHealthOptions
opts = record {
  hds_available = none;
  policy_valid = none;
  approval_gate_available = none;
  required_directories = none;
  storage_paths = none;
  optional_dependencies = none;
  audit_appendable = none;
}

build_runtime_invariant_evidence-report_ok_example :
    (runtime_invariant_report_ok digest (build_runtime_invariant_evidence digest 0 violated) ≡ true)
    ↔ IsExpected violated
build_runtime_invariant_evidence-report_ok_example =
    build_runtime_invariant_evidence-report_ok digest 0 violated

evaluate_hds_brain_health_iff_example :
    ((evaluate_hds_brain_health digest process 5 snapshot opts).fail_safe ≡ false
      ↔ IsReady digest snapshot opts)
    × ((evaluate_hds_brain_health digest process 5 snapshot opts).command_execution_allowed
        ≡ not (evaluate_hds_brain_health digest process 5 snapshot opts).fail_safe)
    × ((evaluate_hds_brain_health digest process 5 snapshot opts).downstream_execution_allowed
        ≡ not (evaluate_hds_brain_health digest process 5 snapshot opts).fail_safe)
    × ((evaluate_hds_brain_health digest process 5 snapshot opts).operator_next_action ≡ none
        ↔ (evaluate_hds_brain_health digest process 5 snapshot opts).fail_safe ≡ false)
evaluate_hds_brain_health_iff_example = evaluate_hds_brain_health_iff digest process 5 snapshot opts
