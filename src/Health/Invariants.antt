-- ===== src/Health/Invariants.antt =====
-- packages/hds-brain/src/runtime_invariants.ts: the runtime invariants and their evidence report.
-- `digest` is `sha256Hex` of a report without its digest. The texts of the evidence are left out.
use blue_tanuki.Base.{
  ℕ, String, Bool, true, false, ◌&&◌, Option, List, [], ◌∷◌, ◌==◌, all, length, eqb, or_else,
}
use blue_tanuki.Approval.Types.{Operation}
use blue_tanuki.Approval.Operation.{final_review_operation_list, is_among}

pub data RuntimeInvariantKey : Type 0 where
  hds_calls_llm process_policy_enforced external_metadata_can_escalate_authority
        memory_used_for_authority complete_history_used_for_authority
        final_review_boundary_enforced_by_approval_gate :
      RuntimeInvariantKey

pub record RuntimeInvariantValues : Type 0 where
  pub hds_calls_llm : Bool
  pub process_policy_enforced : Bool
  pub external_metadata_can_escalate_authority : Bool
  pub memory_used_for_authority : Bool
  pub complete_history_used_for_authority : Bool
  pub final_review_boundary_enforced_by_approval_gate : Bool

pub data RuntimeInvariantGuarantee : Type 0 where
  structural runtime : RuntimeInvariantGuarantee

pub record RuntimeInvariantEvidenceItem : Type 0 where
  pub key : RuntimeInvariantKey
  pub expected : Bool
  pub actual : Bool
  pub ok : Bool
  pub guarantee : RuntimeInvariantGuarantee
  pub used_for_authority : Bool

-- A report without its digest.
pub record ReportBody : Type 0 where
  pub schema_version : String
  pub generated_at_ms : ℕ
  pub values : RuntimeInvariantValues
  pub all_ok : Bool
  pub evidence : List RuntimeInvariantEvidenceItem
  pub used_for_authority : Bool

pub record RuntimeInvariantEvidenceReport : Type 0 where
  pub body : ReportBody
  pub report_digest : String

abbrev schema_version : String
schema_version = "phase12-s3-runtime-invariants-v1"

abbrev pub expected_runtime_invariants : RuntimeInvariantKey → Bool
expected_runtime_invariants RuntimeInvariantKey.process_policy_enforced = true
expected_runtime_invariants RuntimeInvariantKey.final_review_boundary_enforced_by_approval_gate =
    true
expected_runtime_invariants _ = false

-- `===` of two Booleans
abbrev pub same : Bool → Bool → Bool
same true b = b
same false true = false
same false false = true

-- the elements of `new Set(list)`
unfoldable pub distinct : List Operation → List Operation
distinct [] = []
distinct (x ∷ xs) =
    let rest = distinct xs in elim (is_among x rest) [ true ↦ rest | false ↦ x ∷ rest ]

unfoldable pub final_review_boundary_present : Bool
final_review_boundary_present =
    all (λ operation. is_among operation (distinct final_review_operation_list))
      final_review_operation_list
    && eqb (length (distinct final_review_operation_list)) (length final_review_operation_list)

abbrev pub item :
    RuntimeInvariantKey → Bool → RuntimeInvariantGuarantee → RuntimeInvariantEvidenceItem
item key actual guarantee = record {
  key = key;
  expected = expected_runtime_invariants key;
  actual = actual;
  ok = same actual (expected_runtime_invariants key);
  guarantee = guarantee;
  used_for_authority = false;
}

-- `actuals` are the values that the caller's options give.
unfoldable pub values_of : (RuntimeInvariantKey → Option Bool) → RuntimeInvariantValues
values_of actuals = record {
  hds_calls_llm = or_else (actuals RuntimeInvariantKey.hds_calls_llm) false;
  process_policy_enforced = or_else (actuals RuntimeInvariantKey.process_policy_enforced) true;
  external_metadata_can_escalate_authority =
      or_else (actuals RuntimeInvariantKey.external_metadata_can_escalate_authority) false;
  memory_used_for_authority = or_else (actuals RuntimeInvariantKey.memory_used_for_authority) false;
  complete_history_used_for_authority =
      or_else (actuals RuntimeInvariantKey.complete_history_used_for_authority) false;
  final_review_boundary_enforced_by_approval_gate =
      or_else (actuals RuntimeInvariantKey.final_review_boundary_enforced_by_approval_gate)
        final_review_boundary_present;
}

abbrev pub evidence_of : RuntimeInvariantValues → List RuntimeInvariantEvidenceItem
evidence_of v =
    item RuntimeInvariantKey.hds_calls_llm v.hds_calls_llm structural
    ∷ item RuntimeInvariantKey.process_policy_enforced v.process_policy_enforced runtime
    ∷ item RuntimeInvariantKey.external_metadata_can_escalate_authority
        v.external_metadata_can_escalate_authority runtime
    ∷ item RuntimeInvariantKey.memory_used_for_authority v.memory_used_for_authority structural
    ∷ item RuntimeInvariantKey.complete_history_used_for_authority
        v.complete_history_used_for_authority structural
    ∷ item RuntimeInvariantKey.final_review_boundary_enforced_by_approval_gate
        v.final_review_boundary_enforced_by_approval_gate runtime
    ∷ []

unfoldable pub runtime_invariant_values_ok : RuntimeInvariantValues → Bool
runtime_invariant_values_ok v =
    same v.hds_calls_llm false
    && same v.process_policy_enforced true
    && same v.external_metadata_can_escalate_authority false
    && same v.memory_used_for_authority false
    && same v.complete_history_used_for_authority false
    && same v.final_review_boundary_enforced_by_approval_gate true

module _ (digest : ReportBody → String) where
  unfoldable pub build_runtime_invariant_evidence :
      ℕ → (RuntimeInvariantKey → Option Bool) → RuntimeInvariantEvidenceReport
  build_runtime_invariant_evidence generated_at_ms actuals =
      let values = values_of actuals in
      let body : ReportBody = record {
        schema_version = schema_version;
        generated_at_ms = generated_at_ms;
        values = values;
        all_ok = all (λ e. e.ok) (evidence_of values);
        evidence = evidence_of values;
        used_for_authority = false;
      } in
      record { body = body; report_digest = digest body }

  unfoldable pub runtime_invariant_report_ok : RuntimeInvariantEvidenceReport → Bool
  runtime_invariant_report_ok report =
      report.body.schema_version == schema_version
      && same report.body.used_for_authority false
      && same report.body.all_ok true
      && report.report_digest == digest report.body
      && runtime_invariant_values_ok report.body.values
      && all (λ e. e.ok && same e.used_for_authority false) report.body.evidence
