-- ===== src/Policy/Laws.antt =====
-- What an ASSERT of policy.ts rests on.
use blue_tanuki.Base.{
  String, ◌≡◌, ◌↔◌, refl, Bool, true, false, Option, none, some, List, [], ◌∷◌, arith, or_else,
  if◌then◌else◌, find, All,
}
use blue_tanuki.Base.Dict.{Dict, get}
use blue_tanuki.Protocol.{Decision}
use blue_tanuki.Policy.Types.{Numbers, PolicyConfig, PolicyThresholds, AxisScore, ScoringResult}
use blue_tanuki.Policy.Decide.{
  first_match, by_name, has_issue, first_broken, suspend_for_issue, decide_by_aggregate,
  evaluate_decision,
}

find_step {ℓ} :
    {A : Type ℓ} (b : Bool) (x : A) (rest : Option A)
    → ((elim b [ true ↦ some x | false ↦ rest ]) ≡ none) ↔ (b ≡ false) × (rest ≡ none)
find_step true x rest = ((λ h. cc), λ h. cc)
find_step false x rest = ((λ h. (refl, h)), λ h. h.1)

find-none {ℓ} :
    {A : Type ℓ} (p : A → Bool) (xs : List A) → (find p xs ≡ none) ↔ All (λ x. p x ≡ false) xs
find-none p [] = ((λ _. tt), λ _. refl)
find-none p (x ∷ xs) =
    let (to, from) = find-none p xs in
    let (split, join_up) = find_step (p x) x (find p xs) in
    ((λ h. let (fails, rest) = split h in (fails, to rest)), λ h. join_up (h.0, from h.1))

module _ {Num : Type 0} where
  -- The axis of the entry has no score, or one that does not break the threshold.
  abbrev pub Keeps : (Num → Num → Bool) → Dict (AxisScore Num) → String × Num → Type 0
  Keeps breaks scores (axis, thr) =
      (a : AxisScore Num) → get scores axis ≡ some a → breaks a.score thr ≡ false

  broken_step :
      (b : Bool) (here : String × Num × Num) (later : Option (String × Num × Num))
      → ((if b then some here else later) ≡ none) ↔ (b ≡ false) × (later ≡ none)
  broken_step true here later = ((λ h. cc), λ h. cc)
  broken_step false here later = ((λ h. (refl, h)), λ h. h.1)

  kept_unless :
      (breaks : Num → Num → Bool) (axis : String) (thr : Num) (later : Option (String × Num × Num))
      (o : Option (AxisScore Num))
      → ((elim o [
        | none ↦ later
        | some a ↦ if breaks a.score thr then some (axis, thr, a.score) else later
      ])
          ≡ none)
        ↔ ((a : AxisScore Num) → o ≡ some a → breaks a.score thr ≡ false) × (later ≡ none)
  kept_unless breaks axis thr later none = ((λ h. ((λ a e. cc), h)), λ h. h.1)
  kept_unless breaks axis thr later (some b) =
      let (split, join_up) = broken_step (breaks b.score thr) (axis, thr, b.score) later in
      (
        (λ h. let (fine, rest) = split h in ((λ a e. cc fine), rest)),
        λ h. join_up (h.0 b refl, h.1),
      )

  first_broken-none :
      (breaks : Num → Num → Bool) (scores : Dict (AxisScore Num)) (entries : Dict Num)
      → (first_broken breaks scores entries ≡ none) ↔ All (Keeps breaks scores) entries
  unfolding first_broken
  first_broken-none breaks scores [] = ((λ _. tt), λ _. refl)
  first_broken-none breaks scores ((axis, thr) ∷ rest) =
      let (to, from) = first_broken-none breaks scores rest in
      let (split, join_up) =
        kept_unless breaks axis thr (first_broken breaks scores rest) (get scores axis) in
      ((λ h. let (fine, later) = split h in (fine, to later)), λ h. join_up (h.0, from h.1))

  module _ (num : Numbers Num) where
    aggregate_ladder :
        (aggregate : Num) (t : PolicyThresholds Num)
        → ((decide_by_aggregate num aggregate t).decision ≡ Decision.assert)
          ↔ (num.less aggregate t.out_of_scope_below ≡ false)
            × (num.at_most t.aggregate_assert aggregate ≡ true)
    unfolding decide_by_aggregate
    aggregate_ladder aggregate t = ground arith

    first_match-assert :
        (issue : Option (AxisScore Num)) (failing suspending : Option (String × Num × Num))
        (aggregate : Num) (t : PolicyThresholds Num)
        → ((first_match num issue failing suspending aggregate t).decision ≡ Decision.assert)
          ↔ (issue ≡ none)
            × (failing ≡ none)
            × (suspending ≡ none)
            × (num.less aggregate t.out_of_scope_below ≡ false)
            × (num.at_most t.aggregate_assert aggregate ≡ true)
    unfolding first_match
    first_match-assert (some a) failing suspending aggregate t = ((λ h. cc), λ h. cc)
    first_match-assert none (some b) suspending aggregate t = ((λ h. cc), λ h. cc)
    first_match-assert none none (some b) aggregate t = ((λ h. cc), λ h. cc)
    first_match-assert none none none aggregate t =
        let (to, from) = aggregate_ladder aggregate t in
        (
          (λ h. let (bound, reached) = to h in (refl, refl, refl, bound, reached)),
          λ h. from (h.3, h.4),
        )

    first_match-issue :
        (a : AxisScore Num) (failing suspending : Option (String × Num × Num)) (aggregate : Num)
        (t : PolicyThresholds Num)
        → first_match num (some a) failing suspending aggregate t ≡ suspend_for_issue a
    unfolding first_match
    first_match-issue a failing suspending aggregate t = refl

    -- The decision is ASSERT exactly when every axis has a clean lifecycle, no axis is at or below its
    -- fail threshold nor below its suspend threshold, and the aggregate is not below the scope bound
    -- and reaches the assert bound.
    pub evaluate_decision-assert_iff :
        (scoring : ScoringResult Num) (policy : PolicyConfig Num)
        → ((evaluate_decision num scoring policy).decision ≡ Decision.assert)
          ↔ All (λ a. has_issue a ≡ false) scoring.axis_scores
            × All
                (Keeps num.at_most (by_name [] scoring.axis_scores))
                (or_else policy.thresholds.per_axis_fail [])
            × All
                (Keeps num.less (by_name [] scoring.axis_scores))
                (or_else policy.thresholds.per_axis_suspend_below [])
            × (num.less scoring.aggregate policy.thresholds.out_of_scope_below ≡ false)
            × (num.at_most policy.thresholds.aggregate_assert scoring.aggregate ≡ true)
    unfolding evaluate_decision
    evaluate_decision-assert_iff scoring policy =
        let scores = by_name [] scoring.axis_scores in
        let t = policy.thresholds in
        let clean = find-none has_issue scoring.axis_scores in
        let failing = first_broken-none num.at_most scores (or_else t.per_axis_fail []) in
        let soft = first_broken-none num.less scores (or_else t.per_axis_suspend_below []) in
        let (to, from) =
          first_match-assert (find has_issue scoring.axis_scores)
            (first_broken num.at_most scores (or_else t.per_axis_fail []))
            (first_broken num.less scores (or_else t.per_axis_suspend_below [])) scoring.aggregate
            t in
        (
          (λ h.
              let (c, f, s, bound, reached) = to h in
              (clean.0 c, failing.0 f, soft.0 s, bound, reached)),
          λ h. from (clean.1 h.0, failing.1 h.1, soft.1 h.2, h.3, h.4),
        )
