-- ===== src/Executor/Policy.antt =====
-- The controller's check of a command and the executor's gate, composed.
use blue_tanuki.Base.{
  String, ◌≡◌, ◌⊎◌, inl, inr, refl, sym, ap, ◌∙◌, Bool, true, false, not, Option, none, some, List,
  [], ◌∷◌, find, All, if◌then◌else◌, Bool-cases, or_else, eq_iff, ◌==◌,
}
use mathlib.Core.Path.{subst}
use blue_tanuki.Base.Text.{includes}
use blue_tanuki.Protocol.{ToolCallPayload, CommandConstraints, Body, type_of, ExecuteCommand}
use blue_tanuki.Process.Types.{ProcessDefinition}
use blue_tanuki.Controller.Command.{
  command_execution_policy_violation, allows_type, outside, tool_of, forbidden, capabilities_of,
}
use blue_tanuki.Executor.Types.{Tool, Call, ExecutorState, Times}
use blue_tanuki.Executor.Registry.{get_tool}
use blue_tanuki.Executor.Run.{ExecutorDeps, allowed_of, required_of, with_call, execute}
use blue_tanuki.Executor.Gate.{not-false, context_of, execute-Gated}

violation_parts :
    (a b : Bool) (x y : String) (o : Option String) (f : String → String) (rest : Option String)
    → (if not a
        then some x
        else if b
        then some y
        else elim o [ some cap ↦ some (f cap) | none ↦ rest ])
      ≡ none
    → (b ≡ false) × (o ≡ none)
violation_parts false b x y o f rest h = cc
violation_parts true true x y o f rest h = cc
violation_parts true false x y none f rest h = (refl, refl)
violation_parts true false x y (some cap) f rest h = cc

find-none :
    (q : String → Bool) (xs : List String)
    → find (λ x. not (q x)) xs ≡ none
    → All (λ x. q x ≡ true) xs
find-none q [] h = tt
find-none q (x ∷ xs) h = elim (Bool-cases (q x)) [
  | inl holds ↦ (holds, find-none q xs (rw (holds, find) at h))
  | inr fails ↦ cc (rw (fails, find) at h)
]

constraints-allowed_of :
    (o : Option CommandConstraints)
    → elim o [ none ↦ [] | some c ↦ or_else c.allowed_capabilities [] ] ≡ allowed_of o
constraints-allowed_of none = refl
constraints-allowed_of (some c) = refl

-- A test that holds of all allowed names holds of what they include.
All-includes :
    (q : String → Bool) (xs : List String) (x : String)
    → All (λ y. q y ≡ true) xs
    → includes xs x ≡ true
    → q x ≡ true
unfolding includes
All-includes q [] x h k = cc
All-includes q (y ∷ ys) x (h, hs) k = elim (Bool-cases (y == x)) [
  | inl same ↦ ap q (sym ((eq_iff y x).0 same)) ∙ h
  | inr other ↦ All-includes q ys x hs (rw other at k)
]

All-within :
    (q : String → Bool) (allowed required : List String)
    → All (λ y. q y ≡ true) allowed
    → All (λ x. includes allowed x ≡ true) required
    → All (λ x. q x ≡ true) required
All-within q allowed [] h k = tt
All-within q allowed (x ∷ xs) h (k, ks) =
    (All-includes q allowed x h k, All-within q allowed xs h ks)

-- What the controller's check says of a tool command that passes it.
pub violation-none :
    (cmd : ExecuteCommand) (p : ToolCallPayload) (process : ProcessDefinition)
    → cmd.body ≡ Body.tool_call p
    → command_execution_policy_violation cmd process ≡ none
    → (includes process.execution_policy.allowed_tools p.tool_name ≡ true)
      × All
          (λ cap. includes process.execution_policy.allowed_capabilities cap ≡ true)
          (allowed_of cmd.constraints)
unfolding command_execution_policy_violation
violation-none cmd p process body h =
    let policy = process.execution_policy in
    let (inside, free) =
      violation_parts (allows_type policy (type_of cmd.body))
        (outside (tool_of cmd.body) policy.allowed_tools) _ _
        (forbidden policy (capabilities_of cmd)) _ _ h in
    (
      not-false (includes policy.allowed_tools p.tool_name) (rw body at inside),
      subst (All (λ cap. includes policy.allowed_capabilities cap ≡ true))
          (constraints-allowed_of cmd.constraints)
          (find-none (includes policy.allowed_capabilities) (capabilities_of cmd) free),
    )

module _ {S : Type 0} (deps : ExecutorDeps S) where
  -- For a tool command that has passed the controller's check against a process, the executor changes
  -- nothing, or it calls one registered tool that is among the process's tools and requires only
  -- capabilities of the process.
  pub execute-within_policy :
      (cmd : ExecuteCommand) (p : ToolCallPayload) (process : ProcessDefinition) (t : Times)
      (st : ExecutorState S)
      → cmd.body ≡ Body.tool_call p
      → command_execution_policy_violation cmd process ≡ none
      → ((execute deps cmd t st).1 ≡ st)
        ⊎ ((tool : Tool) × (get_tool deps.tools p.tool_name ≡ some tool)
            × ((execute deps cmd t st).1
                ≡ with_call st (Call.tool p.tool_name p.arguments (context_of deps cmd)))
            × (includes process.execution_policy.allowed_tools p.tool_name ≡ true)
            × All
                (λ cap. includes process.execution_policy.allowed_capabilities cap ≡ true)
                (required_of tool))
  execute-within_policy cmd p process t st body h =
      let (named, capable) = violation-none cmd p process body h in
      elim (execute-Gated deps cmd p t st body) [
        | inl (_, _, same) ↦ inl same
        | inr (tool, found, (_, required), called, _) ↦ inr (
          tool,
          found,
          called,
          named,
          All-within _ (allowed_of cmd.constraints) (required_of tool) capable required,
        )
      ]
