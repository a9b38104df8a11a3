-- ===== src/Controller/Command.antt =====
-- controller.ts: the commits that the controller itself makes, the checks of process authority and of
-- the execution policy, and the command that a decision becomes.
use blue_tanuki.Base.{
  ℕ, String, Bool, true, false, not, ◌&&◌, Option, none, some, List, [], ◌∷◌, ◌==◌, any, find,
  or_else, ltb, min, if◌then◌else◌, test, Result, ok, ◌>>=◌,
}
use blue_tanuki.Base.Text.{◌<>◌, show, includes}
use blue_tanuki.Base.Trim.{trim}
use blue_tanuki.Base.Dict.{Dict, get}
use blue_tanuki.Base.Json.{Json, Items, Fields, as_string}
use blue_tanuki.Protocol.{
  Decision, CommandType, CommandType-discrete, Body, type_of, Role, ChannelSendPayload,
  CommandConstraints, ExecuteCommand, UpstreamDecision,
}
use blue_tanuki.Process.Types.{
  InboundRequest, ActorKind, is_actor_kind, Trigger, ProcessDefinition, FrameResult,
  ExecutionPolicy,
}
use blue_tanuki.Process.Actor.{is_text, meta_of}
use blue_tanuki.Process.Frame.{actor_kind_name}
use blue_tanuki.Policy.Types.{CommitResult}
use blue_tanuki.Controller.Types.{DecisionLog, LlmCommandRoute, Setting}
use blue_tanuki.Routing.Table.{RoutedAction}
use blue_tanuki.Routing.Content.{route_action}

abbrev pub texts : List String → Items
texts [] = Items.nil
texts (s ∷ ss) = Items.cons (Json.str s) (texts ss)

-- `sha256` takes the object with these five fields
unfoldable pub commit_of :
    (Json → String) → Decision → String → String → String → Fields → List String → CommitResult
commit_of digest decision name kind reason bind triggered_thresholds = record {
  decision = decision;
  reason = kind <> ":" <> reason;
  hash = digest (
      Json.obj (
        Fields.field "kind" (Json.str kind) (
          Fields.field "reason" (Json.str reason) (
            Fields.field "bind" (Json.obj bind) (
              Fields.field "decision" (Json.str name) (
                Fields.field "triggered_thresholds" (Json.arr (texts triggered_thresholds))
                  Fields.end))))));
  triggered_thresholds = triggered_thresholds;
}

unfoldable pub security_commit : (Json → String) → String → String → Fields → CommitResult
unfolding commit_of
security_commit digest kind reason bind =
    commit_of digest Decision.fail "FAIL" kind reason bind (("security:" <> kind) ∷ [])

unfoldable pub suspend_commit :
    (Json → String) → String → String → Fields → List String → CommitResult
unfolding commit_of
suspend_commit digest kind reason bind triggered_thresholds =
    commit_of digest Decision.suspend "SUSPEND" kind reason bind triggered_thresholds

abbrev is_webhook_trigger : Trigger → Bool
is_webhook_trigger Trigger.webhook = true
is_webhook_trigger _ = false

abbrev is_cron_trigger : Trigger → Bool
is_cron_trigger Trigger.cron = true
is_cron_trigger _ = false

unfoldable pub process_authority_violation : FrameResult → Option String
process_authority_violation f =
    let actor = f.actor in
    let process = f.process in
    if not (any (is_actor_kind actor.actor_kind) process.allowed_actor_kinds)
    then some (
        "actor_kind "
        <> actor_kind_name actor.actor_kind
        <> " not allowed for "
        <> process.process_id)
    else if process.owner_required && not (is_actor_kind actor.actor_kind ActorKind.owner)
    then some (process.process_id <> " requires owner actor")
    else if is_webhook_trigger process.trigger
        && not (is_actor_kind actor.actor_kind ActorKind.webhook)
    then some "webhook trigger requires webhook actor"
    else if is_cron_trigger process.trigger
        && not (is_actor_kind actor.actor_kind ActorKind.cron)
        && not (is_actor_kind actor.actor_kind ActorKind.system)
        && not (is_actor_kind actor.actor_kind ActorKind.owner)
    then some "cron trigger requires cron/system/owner actor"
    else none

abbrev pub command_type_name : CommandType → String
command_type_name CommandType.llm_call = "llm_call"
command_type_name CommandType.tool_call = "tool_call"
command_type_name CommandType.channel_send = "channel_send"
command_type_name CommandType.noop = "noop"

-- `constraints?.allowed_capabilities ?? []` and `constraints?.timeout_ms`
abbrev pub capabilities_of : ExecuteCommand → List String
capabilities_of command = elim command.constraints [
  | none ↦ []
  | some c ↦ or_else c.allowed_capabilities []
]

abbrev pub timeout_of : ExecuteCommand → Option ℕ
timeout_of command = elim command.constraints [ none ↦ none | some c ↦ c.timeout_ms ]

abbrev pub tool_of : Body → Option String
tool_of (Body.tool_call p) = some p.tool_name
tool_of _ = none

abbrev pub exceeds : Option ℕ → ℕ → Bool
exceeds none limit = false
exceeds (some t) limit = ltb limit t

abbrev pub outside : Option String → List String → Bool
outside none names = false
outside (some s) names = not (includes names s)

abbrev pub allows_type : ExecutionPolicy → CommandType → Bool
allows_type policy t = any (λ u. test (CommandType-discrete t u)) policy.allowed_command_types

-- the capability that the violation names, if there is one
abbrev pub forbidden : ExecutionPolicy → List String → Option String
forbidden policy caps = find (λ cap. not (includes policy.allowed_capabilities cap)) caps

unfoldable pub command_execution_policy_violation :
    ExecuteCommand → ProcessDefinition → Option String
command_execution_policy_violation command process =
    let policy = process.execution_policy in
    if not (allows_type policy (type_of command.body))
    then some (
        "command_type "
        <> command_type_name (type_of command.body)
        <> " not allowed for "
        <> process.process_id)
    else if outside (tool_of command.body) policy.allowed_tools
    then some
        ("tool " <> or_else (tool_of command.body) "" <> " not allowed for " <> process.process_id)
    else elim (forbidden policy (capabilities_of command)) [
      | some cap ↦ some ("capability " <> cap <> " not allowed for " <> process.process_id)
      | none ↦
          if exceeds (timeout_of command) policy.timeout_ms
          then some (
              "timeout_ms "
              <> show (or_else (timeout_of command) 0)
              <> " exceeds "
              <> process.process_id
              <> " limit "
              <> show policy.timeout_ms)
          else none
    ]

unfoldable pub string_meta : Dict Json → String → Option String
string_meta meta key = elim (as_string (get meta key)) [
  | none ↦ none
  | some s ↦ if trim s == "" then none else some s
]

unfoldable pub trusted_channel_send_from_metadata : Dict Json → Option ChannelSendPayload
trusted_channel_send_from_metadata meta =
    if is_text (as_string (get meta "blue_tanuki.authority_context")) "gateway_internal_v1"
    then elim (string_meta meta "blue_tanuki.channel_send.channel") [
      | none ↦ none
      | some channel ↦ elim (string_meta meta "blue_tanuki.channel_send.target") [
        | none ↦ none
        | some target ↦ elim (string_meta meta "blue_tanuki.channel_send.content") [
          | none ↦ none
          | some content ↦ some (record { channel = channel; target = target; content = content })
        ]
      ]
    ]
    else none

abbrev pub only_timeout :
    Option ℕ → Option (List String) → Option (List String) → Option ℕ → Option CommandConstraints
only_timeout timeout_ms tools capabilities max_tokens = some (record {
  max_tokens = max_tokens;
  timeout_ms = timeout_ms;
  allowed_tools = tools;
  allowed_capabilities = capabilities;
})

-- the command without a routed action: a scheduled send, or the request's text to the LLM
unfoldable pub default_command :
    LlmCommandRoute → InboundRequest → UpstreamDecision → String → ExecuteCommand
default_command route req upstream uuid = elim (trusted_channel_send_from_metadata (meta_of req)) [
  | some scheduled ↦ record {
    id = uuid;
    body = Body.channel_send scheduled;
    constraints =
        only_timeout (some (min (or_else route.timeout_ms 30000) 30000)) none
          (some ("channel:send" ∷ [])) none;
    upstream_decision = upstream;
  }
  | none ↦ record {
    id = uuid;
    body = Body.llm_call (record {
      messages = record { role = Role.user; content = req.content } ∷ [];
      backend_hint = route.backend_hint;
      model = route.model;
      temperature = route.temperature;
      session_id = some (req.channel <> ":" <> req.user);
    });
    constraints =
        only_timeout (some (or_else route.timeout_ms 30000)) none none
          (some (or_else route.max_tokens 1024));
    upstream_decision = upstream;
  }
]

module _ {Num : Type 0} (setting : Setting Num) where
  abbrev pub upstream_of : DecisionLog Num → UpstreamDecision
  upstream_of log = record {
    frame_goal = log.frame.goal;
    model_abstraction = log.model.abstraction;
    commit_hash = log.commit.hash;
    commit_decision = log.commit.decision;
  }

  -- the command of a route; `uuid` is what `randomUUID` returns
  abbrev pub command_for :
      InboundRequest → DecisionLog Num → String → Option RoutedAction → ExecuteCommand
  command_for req log uuid (some (RoutedAction.tool_call name arguments capabilities timeout_ms)) =
      record {
        id = uuid;
        body = Body.tool_call (record { tool_name = name; arguments = arguments });
        constraints = only_timeout (some timeout_ms) (some (name ∷ [])) (some capabilities) none;
        upstream_decision = upstream_of log;
      }
  command_for req log uuid (some (RoutedAction.noop reason)) = record {
    id = uuid;
    body = Body.noop reason;
    constraints = none;
    upstream_decision = upstream_of log;
  }
  command_for req log uuid none = default_command setting.llm_route req (upstream_of log) uuid

  -- The router throws on some names.
  unfoldable pub build_command :
      InboundRequest → DecisionLog Num → String → Result String ExecuteCommand
  build_command req log uuid = route_action setting.to_upper setting.parse_json req >>= λ action.
      ok (command_for req log uuid action)
