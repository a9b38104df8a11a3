-- ===== src/Approval/Evaluate.antt =====
-- packages/hds-brain/src/approval_policy.ts: the context of a command, and the decision on it.
use Prim.Native.String.{compare}
use text.Mathlib.Text.{is_le}
use blue_tanuki.Base.{
  ℕ, String, Bool, true, false, not, ◌&&◌, Option, none, some, List, [], or_else, if◌then◌else◌,
  head?, filter,
}
use blue_tanuki.Base.Text.{◌<>◌}
use blue_tanuki.Base.Trim.{trim}
use blue_tanuki.Base.Sort.{sort_by, descending}
use blue_tanuki.Protocol.{ExecuteCommand, CommandConstraints, type_of}
use blue_tanuki.Approval.Types.{
  Mode, is_mode, Verdict, ApprovalContext, ApprovalGrant, ApprovalEvaluation, AuthorityTrace,
  GrantDecision,
}
use blue_tanuki.Approval.Operation.{
  operation_from_command, risk_for_operation, final_review_required, approval_level_from_context,
  final_review_operation_list,
}
use blue_tanuki.Approval.Grants.{grant_matches, specificity}
use blue_tanuki.Approval.Scope.{operation_name, or_text, scope_from_command}

-- `constraints?.allowed_capabilities ?? []`
abbrev pub capabilities_of : Option CommandConstraints → List String
capabilities_of none = []
capabilities_of (some k) = or_else k.allowed_capabilities []

-- `actor?.trim() || default`
abbrev pub actor_or : Option String → String → String
actor_or none default = default
actor_or (some a) default = or_text (trim a) default

unfoldable pub approval_context_from_command : ExecuteCommand → Option String → ℕ → ApprovalContext
unfolding scope_from_command
approval_context_from_command c actor now =
    let caps = capabilities_of c.constraints in
    let op = operation_from_command c caps in
    let scope = scope_from_command c op in
    record {
      operation = op;
      target_scope = scope.target_scope;
      target = scope.target;
      path_pattern = scope.path_pattern;
      channel = scope.channel;
      risk = risk_for_operation op caps;
      actor = actor_or actor "local-user";
      capabilities = caps;
      command_type = type_of c.body;
      command_id = c.id;
      upstream_commit_hash = c.upstream_decision.commit_hash;
      created_at = now;
    }

-- The part of an evaluation that the branches of `evaluate_approval` set.
pub record Outcome : Type 0 where
  pub decision : Verdict
  pub mode : Mode
  pub reason : String
  pub matched_grant_id : Option String
  pub final_review_required : Bool

unfoldable pub build_authority_transparency_trace :
    ApprovalContext → Outcome → Bool → AuthorityTrace
build_authority_transparency_trace ctx base full_access_default = record {
  full_access_default = full_access_default;
  final_review_boundary =
      sort_by (λ a b. is_le (compare (operation_name a) (operation_name b)))
        final_review_operation_list;
  operation = ctx.operation;
  target_scope = ctx.target_scope;
  risk = ctx.risk;
  approval_level = approval_level_from_context ctx;
  actor = ctx.actor;
  final_review_required = base.final_review_required;
  matched_grant_id = base.matched_grant_id;
  reason = base.reason;
}

-- `withTrace`
unfoldable pub with_trace : ApprovalContext → Mode → Outcome → ApprovalEvaluation
unfolding build_authority_transparency_trace
with_trace ctx default_mode base = record {
  decision = base.decision;
  mode = base.mode;
  risk = ctx.risk;
  approval_level = approval_level_from_context ctx;
  reason = base.reason;
  matched_grant_id = base.matched_grant_id;
  final_review_required = base.final_review_required;
  context = ctx;
  authority_trace =
      build_authority_transparency_trace ctx base (is_mode default_mode Mode.full_access);
}

-- the grants that match, the most specific first
unfoldable pub matched_grant : List ApprovalGrant → ApprovalContext → ℕ → Option ApprovalGrant
matched_grant grants ctx now =
    head? (sort_by (descending specificity) (filter (λ g. grant_matches g ctx now) grants))

unfoldable pub outcome_of_grant : ApprovalGrant → Bool → Outcome
outcome_of_grant g needs_final_review = elim g.decision [
  | GrantDecision.deny ↦ record {
    decision = Verdict.deny;
    mode = g.mode;
    reason = "deny_grant_matched:" <> g.id;
    matched_grant_id = some g.id;
    final_review_required = needs_final_review;
  }
  | GrantDecision.allow ↦
      if needs_final_review
      then record {
        decision = Verdict.ask;
        mode = g.mode;
        reason = "grant_matched_but_final_review_required:" <> g.id;
        matched_grant_id = some g.id;
        final_review_required = true;
      }
      else record {
        decision = Verdict.allow;
        mode = g.mode;
        reason = "grant_matched:" <> g.id;
        matched_grant_id = some g.id;
        final_review_required = false;
      }
]

unfoldable pub outcome_without_grant : Mode → Bool → Outcome
outcome_without_grant default_mode needs_final_review =
    if is_mode default_mode Mode.full_access && not needs_final_review
    then record {
      decision = Verdict.allow;
      mode = Mode.full_access;
      reason = "default_full_access_without_final_review_exception";
      matched_grant_id = none;
      final_review_required = false;
    }
    else record {
      decision = Verdict.ask;
      mode = default_mode;
      reason = "no_matching_approval_grant";
      matched_grant_id = none;
      final_review_required = needs_final_review;
    }

pub record EvaluateOptions : Type 0 where
  pub actor : Option String
  pub now : Option ℕ
  pub default_mode : Option Mode

-- the branches of `evaluate_approval` after the grant that decides is found
unfoldable pub outcome_for : Option ApprovalGrant → Mode → Bool → Outcome
unfolding outcome_of_grant outcome_without_grant
outcome_for (some g) default_mode needs_final_review = outcome_of_grant g needs_final_review
outcome_for none default_mode needs_final_review =
    outcome_without_grant default_mode needs_final_review

-- `clock` is `Date.now()`.
unfoldable pub evaluate_approval :
    ExecuteCommand → List ApprovalGrant → EvaluateOptions → ℕ → ApprovalEvaluation
unfolding with_trace
evaluate_approval command grants opts clock =
    let now = or_else opts.now clock in
    let ctx = approval_context_from_command command opts.actor now in
    let default_mode = or_else opts.default_mode Mode.full_access in
    with_trace ctx default_mode
      (outcome_for (matched_grant grants ctx now) default_mode (final_review_required ctx))
