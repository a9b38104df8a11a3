-- ===== src/Health/Checks.antt =====
-- The runtime checks of packages/hds-brain/src/health.ts, and the action that it advises.
use blue_tanuki.Base.{
  ℕ, String, Bool, true, false, ◌&&◌, ◌||◌, Option, none, some, List, [], ◌∷◌, ◌++◌, map, any,
  or_else, if◌then◌else◌, test,
}
use blue_tanuki.Base.Text.{◌<>◌, show}
use blue_tanuki.Boundary.{Precondition, Precondition-discrete}
use blue_tanuki.Health.Types.{
  HealthCheckStatus, has_status, AuditAppendabilityStatus, RuntimePathCheck, RuntimeDependencyCheck,
  HdsRuntimeHealthCheck, HdsBrainHealthOptions, HealthSnapshot, ProcessTelemetry, probed,
  memory_only, not_configured, pass, warn, fail, unknown,
}

abbrev pub pass_or_fail : Bool → HealthCheckStatus
pass_or_fail b = if b then pass else fail

unfoldable pub audit_appendability_check_status :
    Option AuditAppendabilityStatus → HealthCheckStatus
audit_appendability_check_status none = unknown
audit_appendability_check_status (some not_configured) = unknown
audit_appendability_check_status (some memory_only) = warn
audit_appendability_check_status (some (probed b)) = pass_or_fail b

unfoldable pub audit_appendability_actual : Option AuditAppendabilityStatus → String
audit_appendability_actual none = "not probed"
audit_appendability_actual (some not_configured) = "persistent audit not configured"
audit_appendability_actual (some memory_only) = "memory audit only"
audit_appendability_actual (some (probed b)) =
    if b then "persistent audit appendable" else "persistent audit not appendable"

abbrev is_present_true : Option Bool → Bool
is_present_true (some true) = true
is_present_true _ = false

abbrev is_absent : Option Bool → Bool
is_absent none = true
is_absent (some _) = false

-- `String(v)` of an optional Boolean
abbrev string_of : Option Bool → String
string_of none = "undefined"
string_of (some true) = "true"
string_of (some false) = "false"

unfoldable pub path_check : String → RuntimePathCheck → Bool → HdsRuntimeHealthCheck
path_check name item required = record {
  name = name;
  status =
      if is_absent item.readable || is_absent item.writable
      then unknown
      else if is_present_true item.readable && is_present_true item.writable
      then pass
      else if required
      then fail
      else warn;
  expected = "path is readable and writable";
  actual = "readable=" <> string_of item.readable <> ", writable=" <> string_of item.writable;
  evidence = item.path;
}

unfoldable pub aggregate_runtime_status : List HdsRuntimeHealthCheck → HealthCheckStatus
aggregate_runtime_status checks =
    if any (λ c. has_status c.status fail) checks
    then fail
    else if any (λ c. has_status c.status unknown) checks
    then unknown
    else if any (λ c. has_status c.status warn) checks
    then warn
    else pass

abbrev includes_precondition : Precondition → List Precondition → Bool
includes_precondition p ps = any (λ q. test (Precondition-discrete p q)) ps

unfoldable pub next_action : List Precondition → Option String
next_action [] = none
next_action (p ∷ ps) =
    let failed = p ∷ ps in
    if includes_precondition Precondition.hds_available failed
    then some "Stop downstream execution and restart HDS-BRAIN before retrying"
    else if includes_precondition Precondition.policy_valid failed
    then some "Repair or roll back the HDS policy configuration, then retry the request"
    else if includes_precondition Precondition.audit_chain_valid failed
    then some "Stop execution and run audit verification before continuing"
    else if includes_precondition Precondition.runtime_invariants_valid failed
    then some
        "Inspect Runtime Invariants evidence and remediate the failed invariant before retrying"
    else if includes_precondition Precondition.approval_gate_available failed
    then some "Restore Approval Gate availability before any downstream execution"
    else if includes_precondition Precondition.memory_chain_valid failed
    then some "Inspect or repair the memory store; do not use memory as authority"
    else some "Inspect HDS-BRAIN self-health before retrying"

abbrev telemetry_status : Option ℕ → HealthCheckStatus
telemetry_status none = unknown
telemetry_status (some _) = pass

abbrev telemetry_actual : Option ℕ → String → String
telemetry_actual none unit = "unavailable"
telemetry_actual (some n) unit = show n <> unit

abbrev base_checks :
    ProcessTelemetry → HealthSnapshot → HdsBrainHealthOptions → Bool → List HdsRuntimeHealthCheck
base_checks process snapshot opts runtime_invariants_ok =
    record {
      name = "process.uptime";
      status = telemetry_status process.uptime_ms;
      expected = "process uptime is observable";
      actual = telemetry_actual process.uptime_ms "ms";
      evidence = "Node process telemetry";
    }
    ∷ record {
      name = "process.memory";
      status = telemetry_status process.rss;
      expected = "process memory usage is observable";
      actual = telemetry_actual process.rss " rss bytes";
      evidence = "Node process telemetry";
    }
    ∷ record {
      name = "audit.chain";
      status = pass_or_fail snapshot.audit_chain_valid;
      expected = "audit hash-chain verifies";
      actual = if snapshot.audit_chain_valid then "valid" else "invalid";
      evidence = show snapshot.audit_entries <> " audit entries";
    }
    ∷ record {
      name = "audit.appendability";
      status = audit_appendability_check_status opts.audit_appendable;
      expected =
          "persistent audit log can append when configured, or memory audit is explicitly identified";
      actual = audit_appendability_actual opts.audit_appendable;
      evidence = "caller-provided audit appendability probe";
    }
    ∷ record {
      name = "runtime_invariants";
      status = pass_or_fail runtime_invariants_ok;
      expected = "Runtime Invariants evidence passes";
      actual = if runtime_invariants_ok then "all_ok" else "failed";
      evidence = snapshot.runtime_invariants.report_digest;
    }
    ∷ []

-- the check that stands for probes that were not supplied
abbrev directory_checks : List RuntimePathCheck → List HdsRuntimeHealthCheck
directory_checks [] =
    record {
      name = "required_directories";
      status = unknown;
      expected = "required runtime directories are probed by the gateway";
      actual = "no directory probe supplied";
      evidence = "self-health was evaluated without filesystem directory probes";
    }
    ∷ []
directory_checks (p ∷ ps) =
    map (λ item. path_check ("required_directory:" <> item.path) item true) (p ∷ ps)

abbrev storage_checks : Bool → List RuntimePathCheck → List HdsRuntimeHealthCheck
storage_checks configured [] =
    record {
      name = "storage_paths";
      status = if configured then unknown else pass;
      expected = "configured storage paths are accessible";
      actual =
          if configured
          then "memory configured but no path probe supplied"
          else "no configured storage path";
      evidence = "storage path accessibility must be supplied by the adapter that owns the path";
    }
    ∷ []
storage_checks configured (p ∷ ps) =
    map (λ item. path_check ("storage_path:" <> item.path) item true) (p ∷ ps)

abbrev dependency_check : RuntimeDependencyCheck → HdsRuntimeHealthCheck
dependency_check item = record {
  name = "optional_dependency:" <> item.name;
  status = elim item.available [ none ↦ unknown | some b ↦ if b then pass else warn ];
  expected = "optional channel dependency is either available or clearly absent";
  actual = elim item.available [
    | none ↦ "not checked"
    | some b ↦ if b then "available" else "not available"
  ];
  evidence = "optional downstream dependency check";
}

unfoldable pub build_runtime_checks :
    ProcessTelemetry → HealthSnapshot → HdsBrainHealthOptions → Bool → List HdsRuntimeHealthCheck
unfolding path_check audit_appendability_check_status audit_appendability_actual
build_runtime_checks process snapshot opts runtime_invariants_ok =
    base_checks process snapshot opts runtime_invariants_ok
    ++ directory_checks (or_else opts.required_directories [])
    ++ storage_checks snapshot.memory_configured (or_else opts.storage_paths [])
    ++ map dependency_check (or_else opts.optional_dependencies [])
