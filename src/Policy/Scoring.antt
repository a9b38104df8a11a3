-- ===== src/Policy/Scoring.antt =====
-- `runScoring` of policy.ts and `model` of model.ts.
use blue_tanuki.Base.{
  String, Bool, true, false, not, ◌||◌, Option, none, some, List, [], ◌∷◌, ◌++◌, Result, ok, thrown,
  or_else, if◌then◌else◌,
}
use blue_tanuki.Base.Text.{◌<>◌, includes}
use blue_tanuki.Base.Dict.{Dict, put}
use blue_tanuki.Policy.Types.{
  Numbers, DetectorLifecycleStatus, is_ok, DetectorLifecycleTrace, detector_lifecycle_ok,
  detector_lifecycle_escalation, DetectorContext, DetectorOutput, PolicyAxis, PolicyConfig,
  AxisScore, ScoringResult, ModelResult,
}
use blue_tanuki.Policy.Registry.{Detector, DetectorRegistry, registry_get}
use blue_tanuki.Process.Types.{InboundRequest, FrameResult}

-- What one axis contributes: its score, and whether the score counts in the weighted sum.
pub record Outcome (Num : Type 0) : Type 0 where
  pub scored : AxisScore Num
  pub counted : Bool

-- The variables of the loop.
pub record ScoringState (Num : Type 0) : Type 0 where
  pub axis_scores : List (AxisScore Num)
  pub weights : Dict Num
  pub weighted_sum : Num
  pub weight_total : Num
  pub seen_axes : List String

module _ {Num : Type 0} (num : Numbers Num) where
  unfoldable pub not_counted : PolicyAxis Num → Option String → DetectorLifecycleTrace → Outcome Num
  not_counted ax evidence lifecycle = record {
    scored = record {
      axis = ax.name;
      score = num.literal 0;
      detector = ax.detector;
      evidence = evidence;
      lifecycle = lifecycle;
    };
    counted = false;
  }

  abbrev invalid_score : PolicyAxis Num → DetectorOutput Num → DetectorLifecycleTrace
  invalid_score ax out =
      detector_lifecycle_escalation DetectorLifecycleStatus.invalid_output
        ("detector returned invalid score: " <> ax.detector)

  -- a finite number from 0 to 1
  abbrev pub is_valid_score : Num → Bool
  is_valid_score s =
      not (not (num.is_finite s) || num.less s (num.literal 0) || num.less (num.literal 100) s)

  unfoldable pub outcome_of_score :
      PolicyAxis Num → DetectorOutput Num → DetectorLifecycleTrace → Option Num → Outcome Num
  outcome_of_score ax out lifecycle none =
      not_counted ax (some (or_else out.evidence (invalid_score ax out).reason))
        (invalid_score ax out)
  outcome_of_score ax out lifecycle (some s) =
      if is_valid_score s
      then record {
        scored = record {
          axis = ax.name;
          score = s;
          detector = ax.detector;
          evidence = out.evidence;
          lifecycle = lifecycle;
        };
        counted = true;
      }
      else not_counted ax (some (or_else out.evidence (invalid_score ax out).reason))
          (invalid_score ax out)

  unfoldable pub outcome_of_output : PolicyAxis Num → DetectorOutput Num → Outcome Num
  outcome_of_output ax out =
      let lifecycle =
        or_else out.lifecycle (detector_lifecycle_ok ("detector_output_ok:" <> ax.detector)) in
      if not (is_ok lifecycle.status)
      then not_counted ax (some (or_else out.evidence lifecycle.reason)) lifecycle
      else outcome_of_score ax out lifecycle out.score

  abbrev pub escalated : PolicyAxis Num → DetectorLifecycleStatus → String → Outcome Num
  escalated ax status reason =
      not_counted ax (some reason) (detector_lifecycle_escalation status reason)

  unfoldable pub outcome_of_evaluation :
      PolicyAxis Num → Result String (DetectorOutput Num) → Outcome Num
  outcome_of_evaluation ax (thrown message) =
      escalated ax DetectorLifecycleStatus.detector_exception
        ("detector threw: " <> ax.detector <> ": " <> message)
  outcome_of_evaluation ax (ok out) = outcome_of_output ax out

  module _ (registry : DetectorRegistry Num) (ctx : DetectorContext) where
    unfoldable pub outcome_of_detector : PolicyAxis Num → Option (Detector Num) → Outcome Num
    outcome_of_detector ax none =
        escalated ax DetectorLifecycleStatus.missing_detector
          ("detector not registered: " <> ax.detector)
    outcome_of_detector ax (some det) =
        outcome_of_evaluation ax (det.evaluate (or_else ax.detector_args []) ctx)

    unfoldable pub outcome_of : List String → PolicyAxis Num → Outcome Num
    outcome_of seen ax =
        if includes seen ax.name
        then escalated ax DetectorLifecycleStatus.detector_conflict
            ("duplicate policy axis: " <> ax.name)
        else outcome_of_detector ax (registry_get registry ax.detector)

    -- one turn of the loop
    unfoldable pub score_axis : ScoringState Num → PolicyAxis Num → ScoringState Num
    score_axis st ax =
        let o = outcome_of st.seen_axes ax in
        record {
          axis_scores = st.axis_scores ++ o.scored ∷ [];
          weights = put st.weights ax.name ax.weight;
          weighted_sum =
              if o.counted
              then num.plus st.weighted_sum (num.times o.scored.score ax.weight)
              else st.weighted_sum;
          weight_total = num.plus st.weight_total ax.weight;
          seen_axes =
              if includes st.seen_axes ax.name then st.seen_axes else ax.name ∷ st.seen_axes;
        }

    unfoldable pub score_axes : ScoringState Num → List (PolicyAxis Num) → ScoringState Num
    score_axes st [] = st
    score_axes st (ax ∷ axes) = score_axes (score_axis st ax) axes

    unfoldable pub run_scoring : PolicyConfig Num → ScoringResult Num
    run_scoring policy =
        let st =
          score_axes
            (record {
              axis_scores = [];
              weights = [];
              weighted_sum = num.literal 0;
              weight_total = num.literal 0;
              seen_axes = [];
            })
            policy.axes in
        record {
          axis_scores = st.axis_scores;
          weights = st.weights;
          aggregate =
              if num.less (num.literal 0) st.weight_total
              then num.over st.weighted_sum st.weight_total
              else num.literal 0;
        }

  unfoldable pub model :
      DetectorRegistry Num → InboundRequest → FrameResult → PolicyConfig Num → ModelResult Num
  model registry req f policy = record {
    abstraction = "goal:" <> f.goal <> "|policy:" <> f.problem_definition_id;
    scoring =
        run_scoring registry
          (record {
            request_content = req.content;
            goal = f.goal;
            protected_values = f.protected_values;
            channel = req.channel;
            user = req.user;
          })
          policy;
  }
