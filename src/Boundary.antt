-- ===== src/Boundary.antt =====
-- packages/hds-brain/src/boundary_policy.ts: what may become authority, and when HDS-BRAIN fails safe.
-- `Object.entries` of a FailSafeInput is in the order in which health.ts writes the fields.
pub mod Laws
use blue_tanuki.Base.{
  String, Bool, true, false, not, Option, none, some, List, [], ◌∷◌, ◌++◌, map, filter,
  if◌then◌else◌,
}
use blue_tanuki.Base.Text.{◌<>◌, join}
use blue_tanuki.Approval.Types.{Risk, Level}

pub data BoundaryReferenceSource : Type 0 where
  memory complete_history session tool_result llm_output channel_metadata plugin_metadata
        external_metadata audit_viewer control_center :
      BoundaryReferenceSource

pub data BoundaryRequestedUse : Type 0 where
  reference audit_evidence authority_decision risk_classification approval_substitution
        privilege_escalation final_review_bypass policy_update :
      BoundaryRequestedUse

pub data BoundaryUpdateTarget : Type 0 where
  policy detector approval history : BoundaryUpdateTarget

pub data UnknownEscalationReason : Type 0 where
  unknown_operation ambiguous_operation unclassified_capability missing_tool_capability
        policy_version_mismatch history_reference_ambiguity approval_grant_ambiguity
        external_metadata_conflict detector_conflict detector_unknown_pattern :
      UnknownEscalationReason

pub data BoundaryDecision : Type 0 where
  allow_reference ask suspend deny : BoundaryDecision

-- `policy_version` and `used_for_authority` are literal types in the source.
pub record BoundaryEvaluation : Type 0 where
  pub policy_version : String
  pub allowed : Bool
  pub decision : BoundaryDecision
  pub risk : Risk
  pub approval_level : Level
  pub used_for_authority : Bool
  pub reason : String

abbrev pub policy_version : String
policy_version = "phase12-s0-boundary-v1"

abbrev source_name : BoundaryReferenceSource → String
source_name BoundaryReferenceSource.memory = "memory"
source_name BoundaryReferenceSource.complete_history = "complete_history"
source_name BoundaryReferenceSource.session = "session"
source_name BoundaryReferenceSource.tool_result = "tool_result"
source_name BoundaryReferenceSource.llm_output = "llm_output"
source_name BoundaryReferenceSource.channel_metadata = "channel_metadata"
source_name BoundaryReferenceSource.plugin_metadata = "plugin_metadata"
source_name BoundaryReferenceSource.external_metadata = "external_metadata"
source_name BoundaryReferenceSource.audit_viewer = "audit_viewer"
source_name BoundaryReferenceSource.control_center = "control_center"

abbrev use_name : BoundaryRequestedUse → String
use_name BoundaryRequestedUse.reference = "reference"
use_name BoundaryRequestedUse.audit_evidence = "audit_evidence"
use_name BoundaryRequestedUse.authority_decision = "authority_decision"
use_name BoundaryRequestedUse.risk_classification = "risk_classification"
use_name BoundaryRequestedUse.approval_substitution = "approval_substitution"
use_name BoundaryRequestedUse.privilege_escalation = "privilege_escalation"
use_name BoundaryRequestedUse.final_review_bypass = "final_review_bypass"
use_name BoundaryRequestedUse.policy_update = "policy_update"

abbrev target_name : BoundaryUpdateTarget → String
target_name BoundaryUpdateTarget.policy = "policy"
target_name BoundaryUpdateTarget.detector = "detector"
target_name BoundaryUpdateTarget.approval = "approval"
target_name BoundaryUpdateTarget.history = "history"

abbrev pub escalation_name : UnknownEscalationReason → String
escalation_name UnknownEscalationReason.unknown_operation = "unknown_operation"
escalation_name UnknownEscalationReason.ambiguous_operation = "ambiguous_operation"
escalation_name UnknownEscalationReason.unclassified_capability = "unclassified_capability"
escalation_name UnknownEscalationReason.missing_tool_capability = "missing_tool_capability"
escalation_name UnknownEscalationReason.policy_version_mismatch = "policy_version_mismatch"
escalation_name UnknownEscalationReason.history_reference_ambiguity = "history_reference_ambiguity"
escalation_name UnknownEscalationReason.approval_grant_ambiguity = "approval_grant_ambiguity"
escalation_name UnknownEscalationReason.external_metadata_conflict = "external_metadata_conflict"
escalation_name UnknownEscalationReason.detector_conflict = "detector_conflict"
escalation_name UnknownEscalationReason.detector_unknown_pattern = "detector_unknown_pattern"

-- the two shapes that the evaluations have
abbrev pub allowed_as_reference : String → BoundaryEvaluation
allowed_as_reference reason = record {
  policy_version = policy_version;
  allowed = true;
  decision = allow_reference;
  risk = Risk.low;
  approval_level = Level.observe;
  used_for_authority = false;
  reason = reason;
}

abbrev pub refused : BoundaryDecision → String → BoundaryEvaluation
refused decision reason = record {
  policy_version = policy_version;
  allowed = false;
  decision = decision;
  risk = Risk.high;
  approval_level = Level.final_review;
  used_for_authority = false;
  reason = reason;
}

-- membership in AUTHORITY_CONVERSION_USES
abbrev pub is_authority_conversion : BoundaryRequestedUse → Bool
is_authority_conversion BoundaryRequestedUse.reference = false
is_authority_conversion BoundaryRequestedUse.audit_evidence = false
is_authority_conversion _ = true

unfoldable pub evaluate_reference_boundary :
    BoundaryReferenceSource → BoundaryRequestedUse → BoundaryEvaluation
evaluate_reference_boundary source requested_use =
    if not (is_authority_conversion requested_use)
    then allowed_as_reference (source_name source <> ":reference_only")
    else refused suspend
        (source_name source <> ":authority_conversion_forbidden:" <> use_name requested_use)

unfoldable pub evaluate_unknown_escalation : UnknownEscalationReason → BoundaryEvaluation
evaluate_unknown_escalation reason =
    refused suspend ("unknown_must_escalate:" <> escalation_name reason)

pub data Precondition : Type 0 where
  hds_available policy_valid audit_chain_valid runtime_invariants_valid approval_gate_available
        memory_chain_valid :
      Precondition

unfoldable pub Precondition-discrete : Discrete Precondition
Precondition-discrete = hlevel

abbrev pub precondition_name : Precondition → String
precondition_name Precondition.hds_available = "hds_available"
precondition_name Precondition.policy_valid = "policy_valid"
precondition_name Precondition.audit_chain_valid = "audit_chain_valid"
precondition_name Precondition.runtime_invariants_valid = "runtime_invariants_valid"
precondition_name Precondition.approval_gate_available = "approval_gate_available"
precondition_name Precondition.memory_chain_valid = "memory_chain_valid"

pub record FailSafeInput : Type 0 where
  pub hds_available : Bool
  pub policy_valid : Bool
  pub audit_chain_valid : Bool
  pub runtime_invariants_valid : Bool
  pub approval_gate_available : Bool
  pub memory_chain_valid : Option Bool

-- `ok === false`, where an absent field is not false
abbrev pub is_false : Option Bool → Bool
is_false (some false) = true
is_false _ = false

unfoldable pub failed_of : FailSafeInput → List Precondition
failed_of input =
    map {A = Precondition × Option Bool} (λ e. e.0)
      (filter (λ e. is_false e.1)
        ((Precondition.hds_available, some input.hds_available)
          ∷ (Precondition.policy_valid, some input.policy_valid)
          ∷ (Precondition.audit_chain_valid, some input.audit_chain_valid)
          ∷ (Precondition.runtime_invariants_valid, some input.runtime_invariants_valid)
          ∷ (Precondition.approval_gate_available, some input.approval_gate_available)
          ∷ (Precondition.memory_chain_valid, input.memory_chain_valid)
          ∷ []))

pub record FailSafeEvaluation : Type 0 where
  pub base : BoundaryEvaluation
  pub failed_preconditions : List Precondition
  pub command_execution_allowed : Bool
  pub downstream_execution_allowed : Bool

abbrev pub fail_safe_of : List Precondition → FailSafeEvaluation
fail_safe_of [] = record {
  base = allowed_as_reference "hds_fail_safe:healthy";
  failed_preconditions = [];
  command_execution_allowed = true;
  downstream_execution_allowed = true;
}
fail_safe_of (p ∷ ps) = record {
  base = refused suspend ("hds_fail_safe:suspend:" <> join "," (map precondition_name (p ∷ ps)));
  failed_preconditions = p ∷ ps;
  command_execution_allowed = false;
  downstream_execution_allowed = false;
}

unfoldable pub evaluate_fail_safe_boundary : FailSafeInput → FailSafeEvaluation
evaluate_fail_safe_boundary input = fail_safe_of (failed_of input)

-- `final_review_required` is the literal true.
unfoldable pub classify_boundary_update : BoundaryUpdateTarget → BoundaryEvaluation
classify_boundary_update target =
    refused ask (target_name target <> ":update_requires_l3_final_review")

pub record TrinityMClosureInput : Type 0 where
  pub x_defined : Bool
  pub r_defined : Bool
  pub m_defined : Bool

abbrev unless_defined : Bool → String → List String
unless_defined true name = []
unless_defined false name = name ∷ []

abbrev closure_of : List String → BoundaryEvaluation × List String
closure_of [] = (allowed_as_reference "trinity_m:closed", [])
closure_of (x ∷ xs) = (refused suspend ("trinity_m:suspend_missing:" <> join "," (x ∷ xs)), x ∷ xs)

unfoldable pub evaluate_trinity_m_closure : TrinityMClosureInput → BoundaryEvaluation × List String
evaluate_trinity_m_closure input = closure_of (
    unless_defined input.x_defined "X"
    ++ unless_defined input.r_defined "R"
    ++ unless_defined input.m_defined "M")
