-- ===== src/Policy/Tests.antt =====
-- A policy with one axis, over hundredths as numbers.
use blue_tanuki.Base.{
  ℕ, ◌*◌, ◌/◌, ◌+◌, ◌≡◌, ◌↔◌, refl, true, false, none, some, [], ◌∷◌, ltb, leb, ok, All, or_else,
}
use blue_tanuki.Base.Text.{includes}
use blue_tanuki.Base.Trim.{trim}
use blue_tanuki.Base.Dict.{get, put}
use blue_tanuki.Protocol.{Decision}
use blue_tanuki.Policy.Types.{Numbers, DetectorContext, PolicyConfig, ScoringResult}
use blue_tanuki.Policy.Registry.{Detector, DetectorRegistry, registry_get}
use blue_tanuki.Policy.Scoring.{
  outcome_of_score, outcome_of_output, outcome_of_evaluation, outcome_of_detector, outcome_of,
  score_axis, score_axes, run_scoring,
}
use blue_tanuki.Policy.Decide.{
  by_name, has_issue, first_broken, first_match, decide_by_aggregate, evaluate_decision,
}
use blue_tanuki.Policy.Laws.{Keeps, evaluate_decision-assert_iff}
use blue_tanuki.Policy.Scored.{AllScored, run_scoring-assert}

abbrev pub hundredths : Numbers ℕ
hundredths = record {
  literal = λ n. n;
  plus = λ a b. a + b;
  times = λ a b. a * b / 100;
  over = λ a b. a * 100 / b;
  less = ltb;
  at_most = leb;
  is_finite = λ _. true;
  fixed = λ _. "n";
  show_num = λ _. "n";
}

abbrev pub content_detector : Detector ℕ
content_detector = record {
  name = "length";
  evaluate = λ args ctx. ok (record { score = some 100; evidence = none; lifecycle = none });
}

abbrev pub registry : DetectorRegistry ℕ
registry = ("length", content_detector) ∷ []

abbrev pub policy : PolicyConfig ℕ
policy = record {
  problem_definition_id = "test_v1";
  description = none;
  axes =
      record { name = "input_validity"; detector = "length"; weight = 20; detector_args = none }
      ∷ [];
  thresholds = record {
    aggregate_assert = 60;
    out_of_scope_below = 20;
    per_axis_fail = some (("input_validity", 20) ∷ []);
    per_axis_suspend_below = none;
  };
}

abbrev ctx : DetectorContext
ctx = record {
  request_content = "hello";
  goal = "hello";
  protected_values = [];
  channel = "cli";
  user = "local-user";
}

scored : ScoringResult ℕ
scored = run_scoring hundredths registry ctx policy

asserted :
    (evaluate_decision hundredths (run_scoring hundredths registry ctx policy) policy).decision
    ≡ Decision.assert
unfolding run_scoring score_axes score_axis outcome_of outcome_of_detector outcome_of_evaluation
    outcome_of_output outcome_of_score registry_get get put trim includes evaluate_decision by_name
    first_broken first_match decide_by_aggregate has_issue
asserted = refl

run_scoring-assert_example : AllScored hundredths registry ctx [] policy.axes
run_scoring-assert_example = run_scoring-assert hundredths registry ctx policy asserted

evaluate_decision-assert_iff_example :
    ((evaluate_decision hundredths scored policy).decision ≡ Decision.assert)
    ↔ All (λ a. has_issue a ≡ false) scored.axis_scores
      × All
          (Keeps hundredths.at_most (by_name [] scored.axis_scores))
          (or_else policy.thresholds.per_axis_fail [])
      × All
          (Keeps hundredths.less (by_name [] scored.axis_scores))
          (or_else policy.thresholds.per_axis_suspend_below [])
      × (ltb scored.aggregate 20 ≡ false)
      × (leb 60 scored.aggregate ≡ true)
evaluate_decision-assert_iff_example = evaluate_decision-assert_iff hundredths scored policy
