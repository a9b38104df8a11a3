-- ===== src/Policy/Types.antt =====
-- The policy and scoring types of packages/hds-brain/src/types.ts and detectors/types.ts. A JavaScript
-- number is a value of a parameter `Num`, with the operations that the code uses.
use blue_tanuki.Base.{ℕ, String, Bool, true, false, Option, none, some, List}
use blue_tanuki.Base.Dict.{Dict}
use blue_tanuki.Base.Json.{Json}
use blue_tanuki.Protocol.{Decision}
use blue_tanuki.Boundary.{UnknownEscalationReason}

-- `literal n` is the number written with n hundredths, `fixed` is `toFixed(2)`.
pub record Numbers (Num : Type 0) : Type 0 where
  pub literal : ℕ → Num
  pub plus : Num → Num → Num
  pub times : Num → Num → Num
  pub over : Num → Num → Num
  pub less : Num → Num → Bool
  pub at_most : Num → Num → Bool
  pub is_finite : Num → Bool
  pub fixed : Num → String
  pub show_num : Num → String

pub data DetectorLifecycleStatus : Type 0 where
  ok missing_detector detector_exception invalid_output unknown_pattern detector_conflict :
      DetectorLifecycleStatus

unfoldable pub DetectorLifecycleStatus-discrete : Discrete DetectorLifecycleStatus
DetectorLifecycleStatus-discrete = hlevel

abbrev pub is_ok : DetectorLifecycleStatus → Bool
is_ok DetectorLifecycleStatus.ok = true
is_ok _ = false

abbrev pub status_name : DetectorLifecycleStatus → String
status_name DetectorLifecycleStatus.ok = "ok"
status_name DetectorLifecycleStatus.missing_detector = "missing_detector"
status_name DetectorLifecycleStatus.detector_exception = "detector_exception"
status_name DetectorLifecycleStatus.invalid_output = "invalid_output"
status_name DetectorLifecycleStatus.unknown_pattern = "unknown_pattern"
status_name DetectorLifecycleStatus.detector_conflict = "detector_conflict"

pub record DetectorLifecycleTrace : Type 0 where
  pub status : DetectorLifecycleStatus
  pub reason : String
  pub escalation_reason : Option UnknownEscalationReason

abbrev pub detector_lifecycle_ok : String → DetectorLifecycleTrace
detector_lifecycle_ok reason = record {
  status = DetectorLifecycleStatus.ok;
  reason = reason;
  escalation_reason = none;
}

-- with the default escalation reason, as policy.ts calls it
abbrev pub detector_lifecycle_escalation : DetectorLifecycleStatus → String → DetectorLifecycleTrace
detector_lifecycle_escalation status reason = record {
  status = status;
  reason = reason;
  escalation_reason = some UnknownEscalationReason.detector_conflict;
}

pub record DetectorContext : Type 0 where
  pub request_content : String
  pub goal : String
  pub protected_values : List String
  pub channel : String
  pub user : String

-- A score is none where the detector's `score` is not a number.
pub record DetectorOutput (Num : Type 0) : Type 0 where
  pub score : Option Num
  pub evidence : Option String
  pub lifecycle : Option DetectorLifecycleTrace

pub record PolicyAxis (Num : Type 0) : Type 0 where
  pub name : String
  pub detector : String
  pub weight : Num
  pub detector_args : Option (Dict Json)

pub record PolicyThresholds (Num : Type 0) : Type 0 where
  pub aggregate_assert : Num
  pub out_of_scope_below : Num
  pub per_axis_fail : Option (Dict Num)
  pub per_axis_suspend_below : Option (Dict Num)

pub record PolicyConfig (Num : Type 0) : Type 0 where
  pub problem_definition_id : String
  pub description : Option String
  pub axes : List (PolicyAxis Num)
  pub thresholds : PolicyThresholds Num

pub record AxisScore (Num : Type 0) : Type 0 where
  pub axis : String
  pub score : Num
  pub detector : String
  pub evidence : Option String
  pub lifecycle : DetectorLifecycleTrace

pub record ScoringResult (Num : Type 0) : Type 0 where
  pub axis_scores : List (AxisScore Num)
  pub weights : Dict Num
  pub aggregate : Num

-- `structure` holds nothing that the code reads, and is left out.
pub record ModelResult (Num : Type 0) : Type 0 where
  pub abstraction : String
  pub scoring : ScoringResult Num

pub record CommitResult : Type 0 where
  pub decision : Decision
  pub reason : String
  pub hash : String
  pub triggered_thresholds : List String
