-- ===== src/Approval/Grants.antt =====
-- packages/hds-brain/src/approval_policy.ts: when a grant covers a context, how specific it is, and
-- the grant that a decision of the owner leaves.
use blue_tanuki.Base.{
  ℕ, ◌+◌, String, Bool, true, false, not, ◌&&◌, ◌||◌, Option, none, some, List, [], ◌==◌, or_else,
  if◌then◌else◌, leb, all, length, test, is_some,
}
use blue_tanuki.Base.Text.{includes}
use blue_tanuki.Approval.Types.{
  Mode, is_mode, Operation, Operation-discrete, Scope, Scope-discrete, Risk, ApprovalContext,
  ApprovalGrant, ApprovalEvaluation, GrantDecision,
}

-- RISK_ORDER
abbrev pub rank : Risk → ℕ
rank Risk.low = 1
rank Risk.medium = 2
rank Risk.high = 3

abbrev pub is_operation : Option Operation → Operation → Bool
is_operation none op = true
is_operation (some o) op = test (Operation-discrete o op)

abbrev pub is_scope : Option Scope → Scope → Bool
is_scope none scope = true
is_scope (some s) scope = test (Scope-discrete s scope)

abbrev pub is_actor : Option String → String → Bool
is_actor none actor = true
is_actor (some a) actor = a == actor

abbrev pub covers_risk : Option Risk → Risk → Bool
covers_risk none risk = true
covers_risk (some r) risk = leb (rank risk) (rank r)

abbrev pub is_expired : Option ℕ → ℕ → Bool
is_expired none now = false
is_expired (some t) now = leb t now

-- an optional text that is there and not empty
abbrev pub given : Option String → Bool
given none = false
given (some s) = not (s == "")

abbrev pub same_text : Option String → Option String → Bool
same_text none none = true
same_text (some s) (some t) = s == t
same_text _ _ = false

abbrev pub has_capabilities : Option (List String) → List String → Bool
has_capabilities none held = true
has_capabilities (some caps) held = all (includes held) caps

unfoldable pub grant_matches : ApprovalGrant → ApprovalContext → ℕ → Bool
grant_matches grant ctx now =
    if is_expired grant.expires_at now
    then false
    else if not (is_operation grant.operation ctx.operation)
    then false
    else if not (is_scope grant.target_scope ctx.target_scope)
    then false
    else if not (is_actor grant.actor ctx.actor)
    then false
    else if not (covers_risk grant.risk ctx.risk)
    then false
    else if given grant.channel && not (same_text grant.channel ctx.channel)
    then false
    else if given grant.target && not (same_text grant.target ctx.target)
    then false
    else if given grant.path_pattern
        && given ctx.path_pattern
        && not (same_text grant.path_pattern ctx.path_pattern)
    then false
    else has_capabilities grant.capabilities ctx.capabilities

abbrev pub points : Bool → ℕ → ℕ
points b n = if b then n else 0

unfoldable pub specificity : ApprovalGrant → ℕ
specificity grant =
    points (is_some grant.operation) 8
    + points (is_some grant.target_scope) 4
    + points (given grant.target) 3
    + points (given grant.path_pattern) 3
    + points (given grant.channel) 2
    + points (is_some grant.actor) 2
    + points (is_some grant.risk) 1
    + length (or_else grant.capabilities [])

pub record GrantOptions : Type 0 where
  pub created_by : String
  pub mode : Option Mode
  pub decision : Option GrantDecision
  pub expires_at : Option ℕ
  pub widen_to_full_access : Bool
  pub note : Option String

abbrev pub unless {ℓ} : {A : Type ℓ} → Bool → Option A → Option A
unless b o = if b then none else o

-- `digest` is the sha256 of the stable JSON of a grant without its id.
module _ (digest : ApprovalGrant → String) where
  unfoldable pub build_approval_grant : ApprovalGrant → ApprovalGrant
  build_approval_grant input = record input { id = digest (record input { id = "" }) }

  -- `clock` is `Date.now()`.
  unfoldable pub approval_grant_from_evaluation :
      ApprovalEvaluation → GrantOptions → ℕ → ApprovalGrant
  unfolding build_approval_grant
  approval_grant_from_evaluation evaluation opts clock =
      let ctx = evaluation.context in
      let mode = or_else opts.mode Mode.remember_this_decision in
      let full = opts.widen_to_full_access || is_mode mode Mode.full_access in
      build_approval_grant (record {
        id = "";
        mode = mode;
        decision = or_else opts.decision GrantDecision.allow;
        operation = unless full (some ctx.operation);
        target_scope = unless full (some ctx.target_scope);
        target = unless full ctx.target;
        path_pattern = unless full ctx.path_pattern;
        channel = unless full ctx.channel;
        risk = unless full (some ctx.risk);
        actor = some ctx.actor;
        capabilities = unless full (some ctx.capabilities);
        created_by = opts.created_by;
        created_at = clock;
        expires_at = opts.expires_at;
        revocable = true;
        note = opts.note;
      })
