-- ===== src/Approval/Tests.antt =====
-- Runs of the approval gate of approval_policy.ts and the grant store of approval_store.ts.
use mathlib.Core.List.{Memᴰ}
use blue_tanuki.Base.{
  ◌≤◌, ◌<◌, inl, inr, arith, String, ◌≡◌, ◌↔◌, ◌⊎◌, refl, true, false, none, some, List, [], ◌∷◌,
  All,
}
use blue_tanuki.Base.Text.{includes, join}
use blue_tanuki.Base.Trim.{trim}
use blue_tanuki.Base.Dict.{get}
use blue_tanuki.Base.Sort.{sort_by}
use blue_tanuki.Protocol.{ExecuteCommand, Body, Decision}
use blue_tanuki.Approval.Types.{
  Mode, Mode-discrete, Scope-discrete, Operation-discrete, Risk-discrete, Verdict, ApprovalGrant,
  ApprovalEvaluation, GrantDecision,
}
use blue_tanuki.Approval.Operation.{
  operation_from_command, risk_for_operation, final_review_required, has_any, has_prefix,
}
use blue_tanuki.Approval.Grants.{
  grant_matches, specificity, GrantOptions, approval_grant_from_evaluation,
}
use blue_tanuki.Approval.Evaluate.{
  EvaluateOptions, evaluate_approval, approval_context_from_command, matched_grant, outcome_for,
}
use blue_tanuki.Approval.Covers.{Covers, matched_grant-Covers}
use blue_tanuki.Approval.Review.{allow_iff, deny_iff, answer_of, remembered_decision}
use blue_tanuki.Approval.Classify.{
  HasNoServiceWrite, HasNoHostWrite, HasFileOrNetwork, HasNoSend, unreviewed_capabilities,
}
use blue_tanuki.Approval.Store.{GrantStore, add, revoke, clear_expired}
use blue_tanuki.Approval.Store.Laws.{IsSaved, operations-IsSaved}

gate : Unit {0}
unfolding evaluate_approval outcome_for matched_grant approval_context_from_command
    operation_from_command risk_for_operation final_review_required grant_matches specificity
    sort_by has_any has_prefix includes get trim join Operation-discrete Risk-discrete Mode-discrete
    Scope-discrete
gate = tt

abbrev tool : String → List String → ExecuteCommand
tool name caps = record {
  id = "c1";
  body = Body.tool_call (record { tool_name = name; arguments = [] });
  constraints = some (record {
    max_tokens = none;
    timeout_ms = some 1000;
    allowed_tools = some (name ∷ []);
    allowed_capabilities = some caps;
  });
  upstream_decision = record {
    frame_goal = "g";
    model_abstraction = "m";
    commit_hash = "h";
    commit_decision = Decision.assert;
  };
}

abbrev defaults : EvaluateOptions
defaults = record { actor = none; now = none; default_mode = none }

abbrev read_file : ExecuteCommand
read_file = tool "file.search" ("fs:read" ∷ [])

abbrev shell : ExecuteCommand
shell = tool "shell.exec" ("tool:shell.exec" ∷ "shell:exec" ∷ [])

shell_asks : (evaluate_approval shell [] defaults 5).decision ≡ Verdict.ask
unfolding gate
shell_asks = refl

read_allowed : (evaluate_approval read_file [] defaults 5).decision ≡ Verdict.allow
unfolding gate
read_allowed = refl

masked_shell :
    (evaluate_approval (tool "ops" ("schedule:read" ∷ "shell:exec" ∷ [])) [] defaults 5).decision
    ≡ Verdict.allow
unfolding gate
masked_shell = refl

abbrev digest : ApprovalGrant → String
digest g = "grant-1"

abbrev choice : GrantOptions
choice = record {
  created_by = "owner";
  mode = none;
  decision = some GrantDecision.deny;
  expires_at = some 100;
  widen_to_full_access = false;
  note = none;
}

abbrev first : ApprovalEvaluation
first = evaluate_approval read_file [] defaults 5

abbrev denial : ApprovalGrant
denial = approval_grant_from_evaluation digest first choice 5

denial_decides : matched_grant (denial ∷ []) first.context 6 ≡ some denial
unfolding gate approval_grant_from_evaluation
denial_decides = refl

allow_iff_example : ((evaluate_approval shell [] defaults 5).decision ≡ Verdict.allow) ↔ (
    (final_review_required (evaluate_approval shell [] defaults 5).context ≡ false)
    × (((g : ApprovalGrant) × (matched_grant [] (evaluate_approval shell [] defaults 5).context 5
            ≡ some g)
          × (g.decision ≡ GrantDecision.allow))
        ⊎ ((matched_grant [] (evaluate_approval shell [] defaults 5).context 5 ≡ none)
            × (Mode.full_access ≡ Mode.full_access))))
allow_iff_example = allow_iff shell [] defaults 5

deny_iff_example :
    ((evaluate_approval read_file (denial ∷ []) defaults 6).decision ≡ Verdict.deny) ↔ (
      (g : ApprovalGrant) × (matched_grant
          (denial ∷ [])
          (evaluate_approval read_file (denial ∷ []) defaults 6).context
          6
        ≡ some g)
      × (g.decision ≡ GrantDecision.deny))
deny_iff_example = deny_iff read_file (denial ∷ []) defaults 6

matched_grant-Covers_example :
    Memᴰ denial (denial ∷ [])
    × Covers denial first.context 6
    × All
        (λ h. grant_matches h first.context 6 ≡ true → specificity h ≤ specificity denial)
        (denial ∷ [])
matched_grant-Covers_example = matched_grant-Covers (denial ∷ []) first.context 6 denial_decides

-- an older grant that allows the actor everything, less specific than the denial
abbrev broad : ApprovalGrant
broad = record denial {
  id = "grant-0";
  decision = GrantDecision.allow;
  operation = none;
  target_scope = none;
  risk = none;
  capabilities = none;
}

less_specific : specificity broad < specificity denial
unfolding gate approval_grant_from_evaluation
less_specific = omega arith

remembered_decision_example :
    (evaluate_approval read_file (broad ∷ denial ∷ []) defaults 9).decision
    ≡ answer_of GrantDecision.deny (
        final_review_required
          (evaluate_approval read_file (broad ∷ denial ∷ []) defaults 9).context)
remembered_decision_example =
    remembered_decision digest read_file [] (broad ∷ denial ∷ []) defaults choice 5 9 refl
      (Memᴰ.tail (Memᴰ.head refl)) ((λ _. inl less_specific), ((λ _. inr refl), tt))

-- The owner's two decisions on the shell: an allowance, and later a denial.
abbrev shell_grant : GrantDecision → ApprovalGrant
shell_grant decision =
    approval_grant_from_evaluation digest (evaluate_approval shell [] defaults 5)
      (record choice { decision = some decision }) 5

first_decision_stays :
    (evaluate_approval shell
      (shell_grant GrantDecision.allow ∷ shell_grant GrantDecision.deny ∷ [])
      defaults
      9).decision
    ≡ Verdict.ask
unfolding gate approval_grant_from_evaluation
first_decision_stays = refl

unreviewed_capabilities_example :
    (has_any ("fs:read" ∷ []) ("credential:read" ∷ "credential.access" ∷ "secrets:read" ∷ [])
      ≡ false)
    × (has_any ("fs:read" ∷ []) ("payment:charge" ∷ "billing:write" ∷ []) ≡ false)
    × ((has_any ("fs:read" ∷ []) ("schedule:read" ∷ []) ≡ true)
        ⊎ (HasNoServiceWrite ("fs:read" ∷ [])
            × ((has_any ("fs:read" ∷ []) ("browser:snapshot" ∷ "tool:browser.snapshot" ∷ []) ≡ true)
                ⊎ (HasNoHostWrite ("fs:read" ∷ [])
                    × (HasFileOrNetwork ("fs:read" ∷ []) ⊎ HasNoSend ("fs:read" ∷ []))))))
unfolding gate
unreviewed_capabilities_example = unreviewed_capabilities read_file ("fs:read" ∷ []) (λ e. cc) refl

abbrev write_grants : List ApprovalGrant → String
write_grants gs = "grants"

abbrev store : GrantStore
store = record { grants = ("grant-1", denial) ∷ []; file = some "grants" }

operations-IsSaved_example :
    IsSaved write_grants (add write_grants store denial)
    × IsSaved write_grants (revoke write_grants store "grant-1").0
    × IsSaved write_grants (clear_expired write_grants store 200).0
operations-IsSaved_example = operations-IsSaved write_grants store denial "grant-1" 200 refl
