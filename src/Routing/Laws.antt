-- ===== src/Routing/Laws.antt =====
-- A routed tool stays within the policy of the tool process.
use blue_tanuki.Base.{
  ℕ, String, ◌≡◌, refl, ap, sym, ◌∙◌, Bool, true, false, ◌&&◌, Option, none, some, List, [], ◌∷◌,
  ◌==◌, leb, ltb, all, ok, thrown, if◌then◌else◌, Bool-cases, inl, inr, eq_iff, arith, Result,
  &&-true, find, not,
}
use mathlib.Core.Path.{subst}
use blue_tanuki.Base.Text.{includes}
use blue_tanuki.Base.Dict.{Dict, get}
use blue_tanuki.Base.Json.{Json}
use blue_tanuki.Protocol.{Body, CommandType, CommandType-discrete, UpstreamDecision, ExecuteCommand}
use blue_tanuki.Process.Types.{InboundRequest, ProcessKind, ProcessDefinition, ExecutionPolicy}
use blue_tanuki.Controller.Command.{
  only_timeout, allows_type, command_execution_policy_violation, build_command, command_for,
  upstream_of,
}
use blue_tanuki.Process.Definition.{execution_policy}
use blue_tanuki.Controller.Types.{Setting, DecisionLog}
use blue_tanuki.Routing.{coerce_tool_args, route_of, build_tool_route}
use blue_tanuki.Routing.Content.{route_action}
use blue_tanuki.Routing.Answers.{OnAction, OnRoute, route_action-OnRoute}
use blue_tanuki.Routing.Table.{RoutedAction, ToolSpec, tool_specs, inherited}

ok_value : {E A : Type 0} {x y : A} → ◌≡◌ {A = Result E A} (ok x) (ok y) → x ≡ y
ok_value h = cc

apart : {E A P : Type 0} {e : E} {x : A} → ◌≡◌ {A = Result E A} (thrown e) (ok x) → P
apart h = cc

some_value : {A : Type 0} {x y : A} → some x ≡ some y → x ≡ y
some_value h = cc

-- An entry of a table whose entries all pass a test passes it.
get-all :
    {V : Type 0} (p : String × V → Bool) (m : Dict V) (k : String) (v : V)
    → all p m ≡ true
    → get m k ≡ some v
    → p (k, v) ≡ true
unfolding get
get-all p [] k v h found = cc
get-all p ((j, w) ∷ m) k v h found =
    let (here, rest) = &&-true (p (j, w)) (all p m) h in
    elim (Bool-cases (j == k)) [
      | inl same ↦
          ap (λ e. p (e, v)) (sym ((eq_iff j k).0 same))
          ∙ ap (λ e. p (j, e)) (sym (some_value (rw same at found)))
          ∙ here
      | inr other ↦ get-all p m k v rest (rw other at found)
    ]

-- A tool with its specification stays within a policy.
fits : ExecutionPolicy → String × ToolSpec → Bool
fits policy (name, spec) =
    includes policy.allowed_tools name
    && (all (includes policy.allowed_capabilities) spec.allowed_capabilities
        && leb spec.timeout_ms policy.timeout_ms)

tool_specs-fits : all (fits (execution_policy ProcessKind.tool)) tool_specs ≡ true
unfolding fits tool_specs execution_policy includes
tool_specs-fits = refl

find-all :
    {A : Type 0} (q : A → Bool) (xs : List A) → all q xs ≡ true → find (λ x. not (q x)) xs ≡ none
find-all q [] h = refl
find-all q (x ∷ xs) h =
    let (here, rest) = &&-true (q x) (all q xs) h in rw (here, find) (find-all q xs rest)

tool_policy-allows_type :
    allows_type (execution_policy ProcessKind.tool) CommandType.tool_call ≡ true
unfolding execution_policy CommandType-discrete
tool_policy-allows_type = refl

tool_policy-allows_noop : allows_type (execution_policy ProcessKind.tool) CommandType.noop ≡ true
unfolding execution_policy CommandType-discrete
tool_policy-allows_noop = refl

in_time : (a b : ℕ) → leb a b ≡ true → ltb b a ≡ false
in_time a b h = ground (arith, h)

-- A command with this tool, these capabilities and this time limit stays within the policy.
tool_call-allowed :
    (name : String) (args : Dict Json) (spec : ToolSpec) (id : String) (upstream : UpstreamDecision)
    (process : ProcessDefinition)
    → allows_type process.execution_policy CommandType.tool_call ≡ true
    → fits process.execution_policy (name, spec) ≡ true
    → command_execution_policy_violation
        (record {
          id = id;
          body = Body.tool_call (record { tool_name = name; arguments = args });
          constraints =
              only_timeout
                (some spec.timeout_ms)
                (some (name ∷ []))
                (some spec.allowed_capabilities)
                none;
          upstream_decision = upstream;
        })
        process
      ≡ none
unfolding command_execution_policy_violation fits
tool_call-allowed name args spec id upstream process typed h =
    let allowed = process.execution_policy in
    let (named, rest) = &&-true (includes allowed.allowed_tools name) _ h in
    let (capable, quick) =
      &&-true (all (includes allowed.allowed_capabilities) spec.allowed_capabilities) _ rest in
    let none_outside =
      find-all (includes allowed.allowed_capabilities) spec.allowed_capabilities capable in
    rw (typed, named, none_outside, in_time _ _ quick) refl

noop-allowed :
    (reason id : String) (upstream : UpstreamDecision) (process : ProcessDefinition)
    → process.execution_policy ≡ execution_policy ProcessKind.tool
    → command_execution_policy_violation
        (record {
          id = id;
          body = Body.noop reason;
          constraints = none;
          upstream_decision = upstream;
        })
        process
      ≡ none
unfolding command_execution_policy_violation
noop-allowed reason id upstream process policy = rw (policy, tool_policy-allows_noop) refl

module _ {Num : Type 0} (setting : Setting Num) where
  -- The command of a route stays within the policy of the process.
  abbrev IsAllowed :
      InboundRequest → DecisionLog Num → String → ProcessDefinition → RoutedAction → Type 0
  IsAllowed req log uuid process action =
      command_execution_policy_violation (command_for setting req log uuid (some action)) process
      ≡ none

  module _ (req : InboundRequest) (log : DecisionLog Num) (uuid : String)
      (process : ProcessDefinition)
      (policy : process.execution_policy ≡ execution_policy ProcessKind.tool) where
    noops-IsAllowed : (reason : String) → IsAllowed req log uuid process (RoutedAction.noop reason)
    noops-IsAllowed reason = noop-allowed reason uuid (upstream_of setting log) process policy

    refused_or_noop :
        (b : Bool) (e reason : String)
        → OnAction setting.to_upper setting.parse_json
            (IsAllowed req log uuid process)
            (if b then thrown e else ok (RoutedAction.noop reason))
    refused_or_noop true e reason = tt
    refused_or_noop false e reason = noops-IsAllowed reason

    route_of-IsAllowed :
        (name : String) (args : Dict Json) (spec : Option ToolSpec)
        → get tool_specs name ≡ spec
        → OnAction setting.to_upper setting.parse_json
            (IsAllowed req log uuid process)
            (route_of setting.to_upper name args spec)
    route_of-IsAllowed name args (some spec) found =
        tool_call-allowed name (coerce_tool_args setting.to_upper name args) spec uuid
          (upstream_of setting log) process
          (ap (λ p. allows_type p CommandType.tool_call) policy ∙ tool_policy-allows_type)
          (ap (λ p. fits p (name, spec)) policy
            ∙ get-all (fits (execution_policy ProcessKind.tool)) tool_specs name spec
                tool_specs-fits found)
    route_of-IsAllowed name args none found = refused_or_noop (includes inherited name) _ _

    build_tool_route-IsAllowed :
        (name : String) (args : Dict Json)
        → OnAction setting.to_upper setting.parse_json
            (IsAllowed req log uuid process)
            (build_tool_route setting.to_upper name args)
    unfolding build_tool_route
    build_tool_route-IsAllowed name args = route_of-IsAllowed name args (get tool_specs name) refl

  -- When the action router answers a request with a route, from its metadata or from its text, the command
  -- that is built for the request never violates the execution policy of the tool process: every
  -- tool of the table is among its tools, with its capabilities and within its time limit.
  pub route_action-allowed :
      (req : InboundRequest) (log : DecisionLog Num) (uuid : String) (process : ProcessDefinition)
      (action : RoutedAction)
      → process.execution_policy ≡ execution_policy ProcessKind.tool
      → route_action setting.to_upper setting.parse_json req ≡ ok (some action)
      → (command : ExecuteCommand) × (build_command setting req log uuid ≡ ok command)
        × (command_execution_policy_violation command process ≡ none)
  unfolding build_command
  route_action-allowed req log uuid process action policy routed = (
    command_for setting req log uuid (some action),
    rw routed refl,
    subst (OnRoute setting.to_upper setting.parse_json (IsAllowed req log uuid process)) routed (
        route_action-OnRoute setting.to_upper setting.parse_json (IsAllowed req log uuid process)
          (noops-IsAllowed req log uuid process policy)
          (build_tool_route-IsAllowed req log uuid process policy) req),
  )
