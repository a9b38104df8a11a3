-- ===== src/Approval/Review.antt =====
-- What the approval gate of approval_policy.ts guarantees.
use mathlib.Core.List.{Memᴰ}
use mathlib.Core.Path.{subst}
use blue_tanuki.Base.{
  ◌≤◌, ◌<◌, sym, All, Option-cases, inr, ℕ, String, ◌≡◌, ◌↔◌, ◌⊎◌, inl, refl, ◌∙◌, ap, Bool, true,
  false, Option, none, some, List, [], ◌∷◌, or_else, if◌then◌else◌, arith,
}
use blue_tanuki.Protocol.{ExecuteCommand}
use blue_tanuki.Approval.Types.{
  Mode, is_mode_iff, Verdict, ApprovalContext, ApprovalGrant, ApprovalEvaluation, GrantDecision,
}
use blue_tanuki.Approval.Operation.{final_review_required}
use blue_tanuki.Approval.Grants.{
  grant_matches, specificity, is_expired, GrantOptions, approval_grant_from_evaluation,
}
use blue_tanuki.Approval.Covers.{
  approval_grant_from_evaluation-matches, matched_grant-found, matched_grant-none,
}
use blue_tanuki.Approval.Evaluate.{
  EvaluateOptions, evaluate_approval, approval_context_from_command, matched_grant, outcome_for,
}

decision-allow_iff :
    (m : Option ApprovalGrant) (mode : Mode) (needs : Bool)
    → ((outcome_for m mode needs).decision ≡ Verdict.allow) ↔ (
        (needs ≡ false)
        × (((g : ApprovalGrant) × (m ≡ some g) × (g.decision ≡ GrantDecision.allow))
            ⊎ ((m ≡ none) × (mode ≡ Mode.full_access))))
unfolding outcome_for
decision-allow_iff none mode needs = ground (arith, is_mode_iff mode Mode.full_access)
decision-allow_iff (some g) mode needs =
    (λ h. (ground arith, inl (g, refl, ground arith)), λ h. ground arith)

decision-deny_iff :
    (m : Option ApprovalGrant) (mode : Mode) (needs : Bool)
    → ((outcome_for m mode needs).decision ≡ Verdict.deny)
      ↔ ((g : ApprovalGrant) × (m ≡ some g) × (g.decision ≡ GrantDecision.deny))
unfolding outcome_for
decision-deny_iff none mode needs = ground arith
decision-deny_iff (some g) mode needs = (λ h. (g, refl, ground arith), λ h. ground arith)

module _ (command : ExecuteCommand) (grants : List ApprovalGrant) (opts : EvaluateOptions)
    (clock : ℕ) where
  abbrev evaluation : ApprovalEvaluation
  evaluation = evaluate_approval command grants opts clock

  abbrev at : ℕ
  at = or_else opts.now clock

  abbrev matched : Option ApprovalGrant
  matched = matched_grant grants evaluation.context at

  -- The gate allows a command exactly if no final review is required and either the grant that
  -- decides allows it, or no grant matches and the default mode is full access.
  pub allow_iff : (evaluation.decision ≡ Verdict.allow) ↔ (
      (final_review_required evaluation.context ≡ false)
      × (((g : ApprovalGrant) × (matched ≡ some g) × (g.decision ≡ GrantDecision.allow))
          ⊎ ((matched ≡ none) × (or_else opts.default_mode Mode.full_access ≡ Mode.full_access))))
  unfolding evaluate_approval
  allow_iff = decision-allow_iff _ _ _

  -- It denies exactly if the grant that decides denies.
  pub deny_iff :
      (evaluation.decision ≡ Verdict.deny)
      ↔ ((g : ApprovalGrant) × (matched ≡ some g) × (g.decision ≡ GrantDecision.deny))
  unfolding evaluate_approval
  deny_iff = decision-deny_iff _ _ _

-- What the gate answers when a grant with this decision decides.
abbrev pub answer_of : GrantDecision → Bool → Verdict
answer_of GrantDecision.deny needs = Verdict.deny
answer_of GrantDecision.allow needs = if needs then Verdict.ask else Verdict.allow

decision-outcome_for :
    (g : ApprovalGrant) (mode : Mode) (needs : Bool)
    → (outcome_for (some g) mode needs).decision ≡ answer_of g.decision needs
unfolding outcome_for
decision-outcome_for g mode needs = ground arith

All-mem {ℓ κ} : {A : Type ℓ} (P : A → Type κ) (xs : List A) {x : A} → Memᴰ x xs → All P xs → P x
All-mem P [] m h = elim m [ ]
All-mem P (y ∷ ys) (Memᴰ.head e) (p, h) = subst P (sym e) p
All-mem P (y ∷ ys) (Memᴰ.tail m) (p, h) = All-mem P ys m h

-- The grants that match are less specific than `mine` or decide as it does.
abbrev pub Yields : ApprovalGrant → ApprovalContext → ℕ → List ApprovalGrant → Type 0
Yields mine ctx now grants =
    All
      (λ g.
        grant_matches g ctx now ≡ true
        → (specificity g < specificity mine) ⊎ (g.decision ≡ mine.decision))
      grants

matched_grant-decision :
    (mine : ApprovalGrant) (grants : List ApprovalGrant) (ctx : ApprovalContext) (now : ℕ)
    → grant_matches mine ctx now ≡ true
    → Memᴰ mine grants
    → Yields mine ctx now grants
    → (g : ApprovalGrant) × (matched_grant grants ctx now ≡ some g) × (g.decision ≡ mine.decision)
matched_grant-decision mine grants ctx now matches listed yields =
    elim (Option-cases (matched_grant grants ctx now)) [
      | inl nothing ↦
          cc (All-mem _ grants listed (matched_grant-none grants ctx now nothing), matches)
      | inr (g, found) ↦
          let (member, fits, greatest) = matched_grant-found grants ctx now found in
          let least : specificity mine ≤ specificity g = All-mem _ grants listed greatest matches in
          elim (All-mem _ grants member yields fits) [
            | inl less ↦ absurd (omega (arith, less, least))
            | inr same ↦ (g, found, same)
          ]
    ]

module _ (digest : ApprovalGrant → String) (command : ExecuteCommand)
    (before stored : List ApprovalGrant) (opts : EvaluateOptions) (choice : GrantOptions)
    (clock later : ℕ)
    (in_force : is_expired choice.expires_at (or_else opts.now later) ≡ false) where
  abbrev remembered : ApprovalGrant
  remembered =
      approval_grant_from_evaluation digest (evaluate_approval command before opts clock) choice
        clock

  abbrev asked : ApprovalContext
  asked = (evaluate_approval command stored opts later).context

  -- A grant that the owner's decision on a command left, as long as it is stored and has not expired,
  -- fixes the answer to the same command, if every other stored grant that matches is less specific or decides
  -- alike: the command is denied if the owner denied it, and otherwise allowed, but the gate asks
  -- again if its operation needs final review.
  pub remembered_decision :
      Memᴰ remembered stored
      → Yields remembered asked (or_else opts.now later) stored
      → (evaluate_approval command stored opts later).decision
        ≡ answer_of (or_else choice.decision GrantDecision.allow) (final_review_required asked)
  unfolding evaluate_approval approval_context_from_command approval_grant_from_evaluation
      grant_matches
  remembered_decision listed yields =
      let mode = or_else opts.default_mode Mode.full_access in
      let first = evaluate_approval command before opts clock in
      let (g, found, same) =
        matched_grant-decision remembered stored asked (or_else opts.now later)
          (approval_grant_from_evaluation-matches digest first choice clock (or_else opts.now later)
            in_force)
          listed yields in
      ap (λ o. (outcome_for o mode (final_review_required asked)).decision) found
      ∙ decision-outcome_for g mode (final_review_required asked)
      ∙ ap (λ d. answer_of d (final_review_required asked)) same
