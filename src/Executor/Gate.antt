-- ===== src/Executor/Gate.antt =====
-- When executor.ts invokes a tool, and what that means for a command that the controller let through.
use blue_tanuki.Base.{
  String, ◌≡◌, ◌⊎◌, inl, inr, refl, sym, Bool, true, false, not, Option, none, some, List, [], ◌∷◌,
  All, filter-nil, mem-filter, if◌then◌else◌, Result, ok,
}
use mathlib.Core.List.{Memᴰ}
use mathlib.Core.Path.{subst}
use blue_tanuki.Base.Text.{includes}
use blue_tanuki.Protocol.{ToolCallPayload, CommandConstraints, Body, ExecuteCommand}
use blue_tanuki.Controller.Types.{ExecuteFeedback, FeedbackStatus}
use blue_tanuki.Executor.Types.{Tool, ToolContext, Call, ExecutorState, Times}
use blue_tanuki.Executor.Registry.{get_tool}
use blue_tanuki.Executor.Run.{
  ExecutorDeps, with_timeout, timeout_of, permits_tool, allowed_of, required_of, missing_of,
  with_call, tool_feedback, invoke_tool, found_tool, execute_tool_call, run_body, caught, execute,
}

pub not-false : (b : Bool) → not b ≡ false → b ≡ true
not-false true h = refl
not-false false h = cc

not-true : (b : Bool) → not b ≡ true → b ≡ false
not-true true h = cc
not-true false h = refl

All-not_test :
    (q : String → Bool) (xs : List String)
    → All (λ x. not (q x) ≡ false) xs
    → All (λ x. q x ≡ true) xs
All-not_test q [] h = tt
All-not_test q (x ∷ xs) (h, hs) = (not-false (q x) h, All-not_test q xs hs)

-- The constraints of a command permit the tool, and all that it requires.
abbrev pub IsPermitted : Option CommandConstraints → String → Tool → Type 0
IsPermitted constraints name tool =
    (permits_tool constraints name ≡ true)
    × All (λ cap. includes (allowed_of constraints) cap ≡ true) (required_of tool)

module _ {S : Type 0} (deps : ExecutorDeps S) where
  -- Why a tool is not invoked: the command does not name it, it is not registered, or it requires a
  -- capability that the command does not allow.
  abbrev pub IsRefused : Option CommandConstraints → String → Type 0
  IsRefused constraints name =
      (permits_tool constraints name ≡ false)
      ⊎ ((get_tool deps.tools name ≡ none)
          ⊎ ((tool : Tool) × (cap : String) × (get_tool deps.tools name ≡ some tool)
              × Memᴰ cap (required_of tool)
              × (includes (allowed_of constraints) cap ≡ false)))

  abbrev pub context_of : ExecuteCommand → ToolContext
  context_of cmd = record {
    command_id = cmd.id;
    upstream_commit_hash = cmd.upstream_decision.commit_hash;
  }

  -- The two ways in which a tool command goes: refused without any effect, or one call of the tool.
  abbrev pub Gated :
      ExecuteCommand
      → ToolCallPayload
      → Times
      → ExecutorState S
      → ExecuteFeedback × ExecutorState S
      → Type 0
  Gated cmd p t st r =
      (IsRefused cmd.constraints p.tool_name × (r.0.status ≡ FeedbackStatus.failed) × (r.1 ≡ st))
      ⊎ ((tool : Tool) × (get_tool deps.tools p.tool_name ≡ some tool)
          × IsPermitted cmd.constraints p.tool_name tool
          × (r.1 ≡ with_call st (Call.tool p.tool_name p.arguments (context_of cmd)))
          × (r.0
              ≡ caught cmd.id t (
                  tool_feedback cmd.id t (
                    with_timeout (tool.invoke p.arguments (context_of cmd))
                      (timeout_of cmd.constraints)))))

  abbrev finish :
      ExecuteCommand
      → Times
      → Result String ExecuteFeedback × ExecutorState S
      → ExecuteFeedback × ExecutorState S
  finish cmd t r = (caught cmd.id t r.0, r.1)

  invoke_tool-Gated :
      (cmd : ExecuteCommand) (p : ToolCallPayload) (t : Times) (st : ExecutorState S) (tool : Tool)
      (missing : List String)
      → permits_tool cmd.constraints p.tool_name ≡ true
      → get_tool deps.tools p.tool_name ≡ some tool
      → missing_of tool cmd.constraints ≡ missing
      → Gated cmd p t st (
          finish cmd t (
            invoke_tool deps cmd.id p cmd.constraints t cmd.upstream_decision.commit_hash st tool
              missing))
  invoke_tool-Gated cmd p t st tool [] permitted found h = inr (
    tool,
    found,
    (
      permitted,
      All-not_test (includes (allowed_of cmd.constraints)) (required_of tool) (
          filter-nil (λ cap. not (includes (allowed_of cmd.constraints) cap)) (required_of tool) h),
    ),
    refl,
    refl,
  )
  invoke_tool-Gated cmd p t st tool (lack ∷ missing) permitted found h =
      let lacks : Memᴰ lack (missing_of tool cmd.constraints) =
        subst (Memᴰ lack) (sym h) (Memᴰ.head refl) in
      let (required, absent) =
        mem-filter (λ c. not (includes (allowed_of cmd.constraints) c)) (required_of tool) lacks in
      inl (inr (inr (tool, lack, found, required, not-true _ absent)), refl, refl)

  found_tool-Gated :
      (cmd : ExecuteCommand) (p : ToolCallPayload) (t : Times) (st : ExecutorState S)
      (o : Option Tool)
      → permits_tool cmd.constraints p.tool_name ≡ true
      → get_tool deps.tools p.tool_name ≡ o
      → Gated cmd p t st (
          finish cmd t
            (found_tool deps cmd.id p cmd.constraints t cmd.upstream_decision.commit_hash st o))
  found_tool-Gated cmd p t st none permitted found = inl (inr (inl found), refl, refl)
  found_tool-Gated cmd p t st (some tool) permitted found =
      invoke_tool-Gated cmd p t st tool _ permitted found refl

  permitted-Gated :
      (cmd : ExecuteCommand) (p : ToolCallPayload) (t : Times) (st : ExecutorState S) (b : Bool)
      → permits_tool cmd.constraints p.tool_name ≡ b
      → (refusal : ExecuteFeedback) → refusal.status ≡ FeedbackStatus.failed
      → Gated cmd p t st (
          finish cmd t (
            if not b
            then (ok refusal, st)
            else found_tool deps cmd.id p cmd.constraints t cmd.upstream_decision.commit_hash st
                (get_tool deps.tools p.tool_name)))
  permitted-Gated cmd p t st true h refusal failed = found_tool-Gated cmd p t st _ h refl
  permitted-Gated cmd p t st false h refusal failed = inl (inl h, failed, refl)

  -- A tool command invokes its tool exactly when the command's constraints permit the tool, the tool is
  -- registered and the constraints allow every capability that it requires. Then it is called once,
  -- with the command's arguments, and the feedback is what it settles to within the time limit.
  -- Otherwise nothing is called, the state is as it was, and the feedback has failed.
  pub execute-Gated :
      (cmd : ExecuteCommand) (p : ToolCallPayload) (t : Times) (st : ExecutorState S)
      → cmd.body ≡ Body.tool_call p
      → Gated cmd p t st (execute deps cmd t st)
  unfolding execute run_body execute_tool_call
  execute-Gated cmd p t st h =
      rw h (permitted-Gated cmd p t st (permits_tool cmd.constraints p.tool_name) refl _ refl)
