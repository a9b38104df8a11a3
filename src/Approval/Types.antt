-- ===== src/Approval/Types.antt =====
-- The data types of packages/hds-brain/src/approval_policy.ts.
use blue_tanuki.Base.{◌≡◌, ◌↔◌, true, test-true, test_of, ℕ, String, Bool, Option, List, test}
use blue_tanuki.Protocol.{CommandType}

pub data Mode : Type 0 where
  ask_every_time remember_this_decision full_access : Mode

pub data Verdict : Type 0 where
  allow ask deny : Verdict

pub data Risk : Type 0 where
  low medium high : Risk

pub data Level : Type 0 where
  observe operate final_review : Level

-- The operations, in the source's order.
pub data Operation : Type 0 where
  noop llm_call tool_call file_read file_search file_write file_delete shell_exec network_http
        browser_snapshot browser_automation channel_send external_send settings_write
        credential_access schedule_list schedule_create schedule_update schedule_delete github_write
        google_write payment_charge unknown :
      Operation

pub data Scope : Type 0 where
  command file folder repo channel task_type global : Scope

-- A grant allows or denies; it never asks.
pub data GrantDecision : Type 0 where
  allow deny : GrantDecision

unfoldable pub Mode-discrete : Discrete Mode
Mode-discrete = hlevel

unfoldable pub Operation-discrete : Discrete Operation
Operation-discrete = hlevel

unfoldable pub Scope-discrete : Discrete Scope
Scope-discrete = hlevel

unfoldable pub Risk-discrete : Discrete Risk
Risk-discrete = hlevel

abbrev pub is_mode : Mode → Mode → Bool
is_mode a b = test (Mode-discrete a b)

pub is_mode_iff : (a b : Mode) → (is_mode a b ≡ true) ↔ (a ≡ b)
is_mode_iff a b = (test-true (Mode-discrete a b), test_of (Mode-discrete a b))

pub record ApprovalContext : Type 0 where
  pub operation : Operation
  pub target_scope : Scope
  pub target : Option String
  pub path_pattern : Option String
  pub channel : Option String
  pub risk : Risk
  pub actor : String
  pub capabilities : List String
  pub command_type : CommandType
  pub command_id : String
  pub upstream_commit_hash : String
  pub created_at : ℕ

-- `none` in `operation`, `target_scope`, `risk` and `actor` is the source's "*".
pub record ApprovalGrant : Type 0 where
  pub id : String
  pub mode : Mode
  pub decision : GrantDecision
  pub operation : Option Operation
  pub target_scope : Option Scope
  pub target : Option String
  pub path_pattern : Option String
  pub channel : Option String
  pub risk : Option Risk
  pub actor : Option String
  pub capabilities : Option (List String)
  pub created_by : String
  pub created_at : ℕ
  pub expires_at : Option ℕ
  pub revocable : Bool
  pub note : Option String

-- What `resolved_factors` and the rest of the trace record; the constant fields are left out.
pub record AuthorityTrace : Type 0 where
  pub full_access_default : Bool
  pub final_review_boundary : List Operation
  pub operation : Operation
  pub target_scope : Scope
  pub risk : Risk
  pub approval_level : Level
  pub actor : String
  pub final_review_required : Bool
  pub matched_grant_id : Option String
  pub reason : String

pub record ApprovalEvaluation : Type 0 where
  pub decision : Verdict
  pub mode : Mode
  pub risk : Risk
  pub approval_level : Level
  pub reason : String
  pub matched_grant_id : Option String
  pub final_review_required : Bool
  pub context : ApprovalContext
  pub authority_trace : AuthorityTrace
