-- ===== src/Policy/Validate.antt =====
-- `validatePolicy` and `DEFAULT_POLICY` of policy.ts. The configuration is typed, so that the tests on
-- the types of its fields have nothing to refuse.
use blue_tanuki.Base.{
  String, Bool, true, false, ◌||◌, some, List, [], ◌∷◌, ◌==◌, Result, ok, thrown, if◌then◌else◌,
}
use blue_tanuki.Base.Json.{Json, Items}
use blue_tanuki.Policy.Types.{Numbers, PolicyAxis, PolicyConfig}

pub data PolicyError : Type 0 where
  problem_definition_id_required at_least_one_axis_required : PolicyError
  axis_missing_name_or_detector axis_invalid_weight : String → PolicyError

module _ {Num : Type 0} (num : Numbers Num) where
  unfoldable pub validate_axes : List (PolicyAxis Num) → Result PolicyError Unit
  validate_axes [] = ok tt
  validate_axes (ax ∷ axes) =
      let rest = validate_axes axes in
      if ax.name == "" || ax.detector == ""
      then thrown (axis_missing_name_or_detector ax.name)
      else if num.less ax.weight (num.literal 0)
      then thrown (axis_invalid_weight ax.name)
      else rest

  abbrev pub is_empty : List (PolicyAxis Num) → Bool
  is_empty [] = true
  is_empty (_ ∷ _) = false

  unfoldable pub validate_policy : PolicyConfig Num → Result PolicyError Unit
  validate_policy p =
      if p.problem_definition_id == ""
      then thrown problem_definition_id_required
      else if is_empty p.axes
      then thrown at_least_one_axis_required
      else validate_axes p.axes

  abbrev items : List String → Items
  items [] = Items.nil
  items (s ∷ ss) = Items.cons (Json.str s) (items ss)

  unfoldable pub default_policy : PolicyConfig Num
  default_policy = record {
    problem_definition_id = "default_v1";
    description = some "Phase 1 default operational policy";
    axes =
        record {
          name = "input_validity";
          detector = "length";
          weight = num.literal 20;
          detector_args = some (("min_chars", Json.num 1) ∷ ("max_chars", Json.num 5000) ∷ []);
        }
        ∷ record {
          name = "risk_safety";
          detector = "risk_keyword";
          weight = num.literal 50;
          detector_args = some (
              (
                "danger_patterns",
                Json.arr (
                    items (
                      "rm\\s+-rf" ∷ "shutdown\\s+-" ∷ "DROP\\s+TABLE" ∷ "DROP\\s+DATABASE"
                      ∷ "format\\s+c:" ∷ "mkfs\\." ∷ "dd\\s+if=.*of=/dev/" ∷ ":(){ :\\|:& };:"
                      ∷ "wget\\s+.*\\|\\s*sh" ∷ "curl\\s+.*\\|\\s*sh" ∷ [])),
              )
              ∷ []);
        }
        ∷ record {
          name = "compliance";
          detector = "keyword_match";
          weight = num.literal 30;
          detector_args = some (
              (
                "blocked_terms",
                Json.arr (
                    items
                      ("social security number" ∷ "credit card number" ∷ "passport number" ∷ [])),
              )
              ∷ []);
        }
        ∷ [];
    thresholds = record {
      aggregate_assert = num.literal 60;
      out_of_scope_below = num.literal 20;
      per_axis_fail = some (("risk_safety", num.literal 20) ∷ []);
      per_axis_suspend_below =
          some (("risk_safety", num.literal 50) ∷ ("compliance", num.literal 50) ∷ []);
    };
  }
