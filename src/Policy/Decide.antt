-- ===== src/Policy/Decide.antt =====
-- `evaluateDecision` of policy.ts and `commit` of commit.ts. `sha256` is the digest of the JSON text of
-- what `commit` binds.
use blue_tanuki.Base.{
  String, Bool, not, Option, none, some, List, [], ◌∷◌, or_else, if◌then◌else◌, find,
}
use blue_tanuki.Base.Text.{◌<>◌}
use blue_tanuki.Base.Dict.{Dict, get, put}
use blue_tanuki.Protocol.{Decision}
use blue_tanuki.Boundary.{UnknownEscalationReason, escalation_name, evaluate_unknown_escalation}
use blue_tanuki.Policy.Types.{
  Numbers, is_ok, status_name, PolicyThresholds, PolicyConfig, AxisScore, ScoringResult,
  ModelResult, CommitResult,
}

pub record DecisionVerdict : Type 0 where
  pub decision : Decision
  pub reason : String
  pub triggered_thresholds : List String

module _ {Num : Type 0} where
  -- the map that `new Map(scores.map((a) => [a.axis, a]))` makes, over what it already holds
  unfoldable pub by_name : Dict (AxisScore Num) → List (AxisScore Num) → Dict (AxisScore Num)
  by_name m [] = m
  by_name m (a ∷ rest) = by_name (put m a.axis a) rest

  unfoldable pub has_issue : AxisScore Num → Bool
  has_issue a = not (is_ok a.lifecycle.status)

  -- the first threshold that the score of its axis breaks, with that score
  unfoldable pub first_broken :
      (Num → Num → Bool) → Dict (AxisScore Num) → Dict Num → Option (String × Num × Num)
  first_broken breaks scores [] = none
  first_broken breaks scores ((axis, thr) ∷ rest) =
      let later = first_broken breaks scores rest in
      elim (get scores axis) [
        | none ↦ later
        | some a ↦ if breaks a.score thr then some (axis, thr, a.score) else later
      ]

  abbrev pub suspend_for_issue : AxisScore Num → DecisionVerdict
  suspend_for_issue a =
      let reason =
        or_else a.lifecycle.escalation_reason UnknownEscalationReason.detector_conflict in
      record {
        decision = Decision.suspend;
        reason =
            (evaluate_unknown_escalation reason).reason
            <> ":axis="
            <> a.axis
            <> ":detector="
            <> a.detector
            <> ":status="
            <> status_name a.lifecycle.status;
        triggered_thresholds =
            ("unknown_escalation:" <> escalation_name reason)
            ∷ ("detector_lifecycle:" <> a.axis <> ":" <> status_name a.lifecycle.status)
            ∷ [];
      }

  module _ (num : Numbers Num) where
    -- steps 3 to 5: the aggregate alone
    unfoldable pub decide_by_aggregate : Num → PolicyThresholds Num → DecisionVerdict
    decide_by_aggregate aggregate t =
        if num.less aggregate t.out_of_scope_below
        then record {
          decision = Decision.out_of_scope;
          reason =
              "aggregate "
              <> num.fixed aggregate
              <> " < out_of_scope_below "
              <> num.show_num t.out_of_scope_below;
          triggered_thresholds = ("out_of_scope_below:" <> num.show_num t.out_of_scope_below) ∷ [];
        }
        else if num.at_most t.aggregate_assert aggregate
        then record {
          decision = Decision.assert;
          reason =
              "aggregate "
              <> num.fixed aggregate
              <> " ≥ aggregate_assert "
              <> num.show_num t.aggregate_assert;
          triggered_thresholds = ("aggregate_assert:" <> num.show_num t.aggregate_assert) ∷ [];
        }
        else record {
          decision = Decision.suspend;
          reason =
              "aggregate " <> num.fixed aggregate <> " below assert threshold; default suspend";
          triggered_thresholds = "default_suspend" ∷ [];
        }

    abbrev pub failed_at : String × Num × Num → DecisionVerdict
    failed_at (axis, thr, score) = record {
      decision = Decision.fail;
      reason =
          "axis '"
          <> axis
          <> "' at "
          <> num.fixed score
          <> " ≤ fail threshold "
          <> num.show_num thr;
      triggered_thresholds = ("per_axis_fail:" <> axis <> "<=" <> num.show_num thr) ∷ [];
    }

    abbrev pub suspended_at : String × Num × Num → DecisionVerdict
    suspended_at (axis, thr, score) = record {
      decision = Decision.suspend;
      reason =
          "axis '"
          <> axis
          <> "' at "
          <> num.fixed score
          <> " < suspend threshold "
          <> num.show_num thr;
      triggered_thresholds = ("per_axis_suspend_below:" <> axis <> "<" <> num.show_num thr) ∷ [];
    }

    -- the first match, in the source's order
    unfoldable pub first_match :
        Option (AxisScore Num)
        → Option (String × Num × Num)
        → Option (String × Num × Num)
        → Num
        → PolicyThresholds Num
        → DecisionVerdict
    first_match (some issue) failing suspending aggregate t = suspend_for_issue issue
    first_match none (some broken) suspending aggregate t = failed_at broken
    first_match none none (some broken) aggregate t = suspended_at broken
    first_match none none none aggregate t = decide_by_aggregate aggregate t

    unfoldable pub evaluate_decision : ScoringResult Num → PolicyConfig Num → DecisionVerdict
    evaluate_decision scoring policy =
        let t = policy.thresholds in
        let scores = by_name [] scoring.axis_scores in
        first_match (find has_issue scoring.axis_scores)
          (first_broken num.at_most scores (or_else t.per_axis_fail []))
          (first_broken num.less scores (or_else t.per_axis_suspend_below [])) scoring.aggregate t

    module _ (digest : ScoringResult Num → DecisionVerdict → String) where
      unfoldable pub commit : ModelResult Num → PolicyConfig Num → CommitResult
      commit m policy =
          let verdict = evaluate_decision m.scoring policy in
          record {
            decision = verdict.decision;
            reason = verdict.reason;
            hash = digest m.scoring verdict;
            triggered_thresholds = verdict.triggered_thresholds;
          }
