-- ===== src/Policy/Scored.antt =====
-- What a clean scoring of policy.ts says of the axes and their detectors.
use blue_tanuki.Base.{
  String, ◌≡◌, refl, Bool, true, false, not, Option, none, some, List, [], ◌∷◌, ◌++◌, arith, Result,
  ok, thrown, or_else, if◌then◌else◌, All,
}
use mathlib.Core.Path.{subst}
use blue_tanuki.Base.Text.{◌<>◌, includes}
use blue_tanuki.Protocol.{Decision}
use blue_tanuki.Policy.Types.{
  Numbers, DetectorLifecycleStatus, is_ok, DetectorLifecycleTrace, detector_lifecycle_ok,
  DetectorContext, DetectorOutput, PolicyAxis, PolicyConfig,
}
use blue_tanuki.Policy.Registry.{Detector, DetectorRegistry, registry_get}
use blue_tanuki.Policy.Scoring.{
  Outcome, ScoringState, escalated, not_counted, is_valid_score, outcome_of_score,
  outcome_of_output, outcome_of_evaluation, outcome_of_detector, outcome_of, score_axis, score_axes,
  run_scoring,
}
use blue_tanuki.Policy.Laws.{evaluate_decision-assert_iff}
use blue_tanuki.Policy.Decide.{has_issue, evaluate_decision}

module _ {Num : Type 0} (num : Numbers Num) where
  -- The axis has a registered detector that returned, with a clean lifecycle, a valid score.
  abbrev pub IsScored : DetectorRegistry Num → DetectorContext → PolicyAxis Num → Type 0
  IsScored registry ctx ax =
      (det : Detector Num) × (out : DetectorOutput Num) × (s : Num) × (registry_get registry
          ax.detector
        ≡ some det)
      × (det.evaluate (or_else ax.detector_args []) ctx ≡ ok out)
      × (is_ok
            (or_else out.lifecycle
              (detector_lifecycle_ok ("detector_output_ok:" <> ax.detector))).status
          ≡ true)
      × (out.score ≡ some s)
      × (is_valid_score num s ≡ true)

  -- Every axis is scored, under a name that no earlier one has.
  abbrev pub AllScored :
      DetectorRegistry Num → DetectorContext → List String → List (PolicyAxis Num) → Type 0
  AllScored registry ctx seen [] = Unit
  AllScored registry ctx seen (ax ∷ axes) =
      (includes seen ax.name ≡ false)
      × IsScored registry ctx ax
      × AllScored registry ctx (ax.name ∷ seen) axes

  has_issue-not_counted :
      (ax : PolicyAxis Num) (e : Option String) (l : DetectorLifecycleTrace)
      → has_issue (not_counted num ax e l).scored ≡ not (is_ok l.status)
  unfolding has_issue not_counted
  has_issue-not_counted ax e l = refl

  outcome_of_score-clean :
      (ax : PolicyAxis Num) (out : DetectorOutput Num) (l : DetectorLifecycleTrace) (o : Option Num)
      → has_issue (outcome_of_score num ax out l o).scored ≡ false
      → (s : Num) × (o ≡ some s) × (is_valid_score num s ≡ true)
  unfolding outcome_of_score has_issue not_counted
  outcome_of_score-clean ax out l none h = cc
  outcome_of_score-clean ax out l (some s) h = (s, refl, ground arith)

  -- of two outcomes chosen by a test, where the first has an issue whenever it is chosen
  guard_clean :
      (b : Bool) (x y : Outcome Num)
      → has_issue x.scored ≡ b
      → has_issue (if b then x else y).scored ≡ false
      → (b ≡ false) × (has_issue y.scored ≡ false)
  guard_clean true x y issue h = cc
  guard_clean false x y issue h = (refl, h)

  not-false : (b : Bool) → not b ≡ false → b ≡ true
  not-false b h = ground arith

  outcome_of_output-clean :
      (ax : PolicyAxis Num) (out : DetectorOutput Num)
      → has_issue (outcome_of_output num ax out).scored ≡ false
      → (is_ok
            (or_else out.lifecycle
              (detector_lifecycle_ok ("detector_output_ok:" <> ax.detector))).status
          ≡ true)
        × ((s : Num) × (out.score ≡ some s) × (is_valid_score num s ≡ true))
  unfolding outcome_of_output
  outcome_of_output-clean ax out h =
      let l =
        or_else out.lifecycle (detector_lifecycle_ok ("detector_output_ok:" <> ax.detector)) in
      let (fine, clean) =
        guard_clean (not (is_ok l.status))
          (not_counted num ax (some (or_else out.evidence l.reason)) l)
          (outcome_of_score num ax out l out.score)
          (has_issue-not_counted ax (some (or_else out.evidence l.reason)) l) h in
      (not-false _ fine, outcome_of_score-clean ax out l out.score clean)

  outcome_of_evaluation-clean :
      (ax : PolicyAxis Num) (r : Result String (DetectorOutput Num))
      → has_issue (outcome_of_evaluation num ax r).scored ≡ false
      → (out : DetectorOutput Num) × (r ≡ ok out)
        × (has_issue (outcome_of_output num ax out).scored ≡ false)
  unfolding outcome_of_evaluation not_counted has_issue
  outcome_of_evaluation-clean ax (thrown e) h = cc
  outcome_of_evaluation-clean ax (ok out) h = (out, refl, h)

  module _ (registry : DetectorRegistry Num) (ctx : DetectorContext) where
    outcome_of_detector-clean :
        (ax : PolicyAxis Num) (o : Option (Detector Num))
        → has_issue (outcome_of_detector num registry ctx ax o).scored ≡ false
        → (det : Detector Num) × (o ≡ some det)
          × (has_issue
                (outcome_of_evaluation num ax
                  (det.evaluate (or_else ax.detector_args []) ctx)).scored
              ≡ false)
    unfolding outcome_of_detector not_counted has_issue
    outcome_of_detector-clean ax none h = cc
    outcome_of_detector-clean ax (some det) h = (det, refl, h)

    duplicate_clean :
        (ax : PolicyAxis Num) (b : Bool) (y : Outcome Num)
        → has_issue
            (if b
              then escalated num ax DetectorLifecycleStatus.detector_conflict
                  ("duplicate policy axis: " <> ax.name)
              else y).scored
          ≡ false
        → (b ≡ false) × (has_issue y.scored ≡ false)
    unfolding not_counted has_issue
    duplicate_clean ax true y h = cc
    duplicate_clean ax false y h = (refl, h)

    outcome_of-clean :
        (seen : List String) (ax : PolicyAxis Num)
        → has_issue (outcome_of num registry ctx seen ax).scored ≡ false
        → (includes seen ax.name ≡ false) × IsScored registry ctx ax
    unfolding outcome_of
    outcome_of-clean seen ax h =
        let (fresh, found) =
          duplicate_clean ax (includes seen ax.name)
            (outcome_of_detector num registry ctx ax (registry_get registry ax.detector)) h in
        let (det, registered, returned) =
          outcome_of_detector-clean ax (registry_get registry ax.detector) found in
        let (out, result, clean) =
          outcome_of_evaluation-clean ax (det.evaluate (or_else ax.detector_args []) ctx)
            returned in
        let (fine, (s, score, valid)) = outcome_of_output-clean ax out clean in
        (fresh, (det, out, s, registered, result, fine, score, valid))

    All-left {ℓ} :
        {A : Type ℓ} (P : A → Type 0) (xs ys : List A) → All P (xs ++ ys) → All P xs × All P ys
    All-left P [] ys h = (tt, h)
    All-left P (x ∷ xs) ys h = let (l, r) = All-left P xs ys h.1 in ((h.0, l), r)

    seen_next :
        (seen : List String) (name : String)
        → includes seen name ≡ false
        → (if includes seen name then seen else name ∷ seen) ≡ name ∷ seen
    seen_next seen name h = rw h

    score_axes-clean :
        (st : ScoringState Num) (axes : List (PolicyAxis Num))
        → All (λ a. has_issue a ≡ false) (score_axes num registry ctx st axes).axis_scores
        → All (λ a. has_issue a ≡ false) st.axis_scores × AllScored registry ctx st.seen_axes axes
    unfolding score_axes score_axis
    score_axes-clean st [] h = (h, tt)
    score_axes-clean st (ax ∷ axes) h =
        let (now, later) = score_axes-clean (score_axis num registry ctx st ax) axes h in
        let (before, here) = All-left (λ a. has_issue a ≡ false) st.axis_scores _ now in
        let (fresh, scored) = outcome_of-clean st.seen_axes ax here.0 in
        (
          before,
          (
            fresh,
            scored,
            subst (λ seen. AllScored registry ctx seen axes) (seen_next st.seen_axes ax.name fresh)
                later,
          ),
        )

    -- When the decision on a policy's scoring is ASSERT, every axis of the policy has a name that no
    -- earlier axis has and a registered detector, which returned without throwing, with a clean
    -- lifecycle and a finite score from 0 to 1.
    pub run_scoring-assert :
        (policy : PolicyConfig Num)
        → (evaluate_decision num (run_scoring num registry ctx policy) policy).decision
          ≡ Decision.assert
        → AllScored registry ctx [] policy.axes
    unfolding run_scoring
    run_scoring-assert policy h =
        (score_axes-clean _ policy.axes
          ((evaluate_decision-assert_iff num (run_scoring num registry ctx policy) policy).0 h).0).1
