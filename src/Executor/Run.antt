-- ===== src/Executor/Run.antt =====
-- packages/blue-tanuki/src/executor.ts: one function per method. An action gives its value or what it throws, and
-- the state in both cases.
use blue_tanuki.Base.{
  ℕ, ◌-◌, String, ◌==◌, Bool, true, false, not, Option, none, some, List, [], ◌∷◌, ◌++◌, map,
  filter, or_else, eqb, ltb, if◌then◌else◌, Result, ok, thrown, ◌>>=◌,
}
use blue_tanuki.Base.Text.{◌<>◌, show, includes, join}
use blue_tanuki.Base.Json.{Json, Fields}
use blue_tanuki.Protocol.{
  Role, Message, LlmCallPayload, ToolCallPayload, ChannelSendPayload, CommandConstraints, Body,
  ExecuteCommand,
}
use blue_tanuki.Controller.Types.{ExecuteFeedback, ExecuteMetrics, FeedbackStatus}
use blue_tanuki.Executor.Types.{
  Timed, ToolContext, Tool, LlmRequest, LlmResponse, ChatMessage, SessionPort, ErrorKind, SendMeta,
  SendResult, Call, ExecutorState, Times,
}
use blue_tanuki.Executor.Registry.{ToolRegistry, get_tool}

pub record ExecutorDeps (S : Type 0) : Type 0 where
  pub llm : LlmRequest → Timed LlmResponse
  pub tools : ToolRegistry
  pub dispatcher : Option (ChannelSendPayload → SendMeta → Result String SendResult)
  pub sessions : SessionPort S
  pub history_limit : Option ℕ

-- A promise that settles at the limit is taken to lose the race.
unfoldable pub with_timeout : {A : Type 0} → Timed A → Option ℕ → Result String A
with_timeout p none = p.outcome
with_timeout p (some timeout_ms) =
    if eqb timeout_ms 0
    then p.outcome
    else if ltb p.elapsed_ms timeout_ms
    then p.outcome
    else thrown ("timeout after " <> show timeout_ms <> "ms")

abbrev pub metrics : Times → Option ℕ → Option ℕ → ExecuteMetrics
metrics t tokens_used tool_calls = record {
  duration_ms = t.finish - t.start;
  tokens_used = tokens_used;
  tool_calls = tool_calls;
}

abbrev pub succeeded : String → Option Json → ExecuteMetrics → ExecuteFeedback
succeeded id result m = record {
  command_id = id;
  status = FeedbackStatus.success;
  result = result;
  error = none;
  metrics = m;
}

abbrev pub refused_with : String → String → Times → ExecuteFeedback
refused_with id error t = record {
  command_id = id;
  status = FeedbackStatus.failed;
  result = none;
  error = some error;
  metrics = metrics t none none;
}

abbrev pub timeout_of : Option CommandConstraints → Option ℕ
timeout_of none = none
timeout_of (some c) = c.timeout_ms

abbrev pub max_tokens_of : Option CommandConstraints → Option ℕ
max_tokens_of none = none
max_tokens_of (some c) = c.max_tokens

-- `constraints?.allowed_tools` permits the tool, or does not stand there
abbrev pub permits_tool : Option CommandConstraints → String → Bool
permits_tool none name = true
permits_tool (some c) name = elim c.allowed_tools [ none ↦ true | some tools ↦ includes tools name ]

abbrev pub allowed_of : Option CommandConstraints → List String
allowed_of none = []
allowed_of (some c) = or_else c.allowed_capabilities []

abbrev pub required_of : Tool → List String
required_of tool = or_else tool.required_capabilities []

-- `session_id` of a payload, when it is not empty
abbrev pub session_of : LlmCallPayload → Option String
session_of p = elim p.session_id [ none ↦ none | some s ↦ if s == "" then none else some s ]

abbrev pub optional_field : String → Option Json → Fields → Fields
optional_field name none rest = rest
optional_field name (some v) rest = Fields.field name v rest

abbrev pub text_json : Option String → Option Json
text_json none = none
text_json (some s) = some (Json.str s)

abbrev pub response_json : LlmResponse → Json
response_json r = Json.obj (
    Fields.field "content" (Json.str r.content) (
      Fields.field "tokens_used" (Json.num r.tokens_used)
        (Fields.field "model" (Json.str r.model) (optional_field "raw" r.raw Fields.end))))

abbrev pub error_kind_name : ErrorKind → String
error_kind_name ErrorKind.recoverable = "recoverable"
error_kind_name ErrorKind.non_recoverable = "non_recoverable"

abbrev pub error_kind_json : Option ErrorKind → Option Json
error_kind_json none = none
error_kind_json (some k) = some (Json.str (error_kind_name k))

abbrev pub number_json : Option ℕ → Option Json
number_json none = none
number_json (some n) = some (Json.num n)

abbrev pub sent_json : ChannelSendPayload → Fields → Json
sent_json p rest = Json.obj (
    Fields.field "sent" (Json.bool true) (
      Fields.field "channel" (Json.str p.channel) (Fields.field "target" (Json.str p.target) rest)))

abbrev pub unsent_json : ChannelSendPayload → SendResult → Json
unsent_json p r = Json.obj (
    Fields.field "sent" (Json.bool false) (
      Fields.field "channel" (Json.str p.channel) (
        Fields.field "target" (Json.str p.target) (
          optional_field "error_kind" (error_kind_json r.error_kind) (
            optional_field "error_code" (text_json r.error_code) (
              optional_field "retry_after_ms" (number_json r.retry_after_ms)
                (optional_field "next_action" (text_json r.next_action) Fields.end)))))))

abbrev pub llm_request : LlmCallPayload → Option CommandConstraints → List Message → LlmRequest
llm_request p constraints messages = record {
  messages = messages;
  backend_hint = p.backend_hint;
  model = p.model;
  temperature = p.temperature;
  max_tokens = max_tokens_of constraints;
}

abbrev pub llm_feedback :
    String → LlmResponse → Times → Result String Unit → Result String ExecuteFeedback
llm_feedback id r t (thrown e) = thrown e
llm_feedback id r t (ok _) =
    ok (succeeded id (some (response_json r)) (metrics t (some r.tokens_used) none))

abbrev pub tool_feedback :
    String → Times → Result String (Option Json) → Result String ExecuteFeedback
tool_feedback id t (thrown e) = thrown e
tool_feedback id t (ok result) = ok (succeeded id result (metrics t none (some 1)))

abbrev pub missing_of : Tool → Option CommandConstraints → List String
missing_of tool constraints =
    filter (λ cap. not (includes (allowed_of constraints) cap)) (required_of tool)

abbrev pub sent_feedback :
    String → ChannelSendPayload → Times → Result String SendResult → Result String ExecuteFeedback
sent_feedback id p t (thrown e) = thrown e
sent_feedback id p t (ok r) =
    if r.delivered
    then ok (
        succeeded id
          (some (sent_json p (optional_field "external_id" (text_json r.external_id) Fields.end)))
          (metrics t none none))
    else ok (record {
      command_id = id;
      status = FeedbackStatus.failed;
      result = some (unsent_json p r);
      error = some (or_else r.error "channel_dispatch_failed");
      metrics = metrics t none none;
    })

abbrev pub caught : String → Times → Result String ExecuteFeedback → ExecuteFeedback
caught id t (ok fb) = fb
caught id t (thrown e) = refused_with id e t

module _ {S : Type 0} where
  abbrev pub with_call : ExecutorState S → Call → ExecutorState S
  with_call st c = record st { calls = st.calls ++ c ∷ [] }

  abbrev pub with_sessions : ExecutorState S → S → ExecutorState S
  with_sessions st s = record st { session_store = some s }

module _ {S : Type 0} (deps : ExecutorDeps S) where
  -- the messages of the history, if the command has a session, before its own
  unfoldable pub effective_messages :
      Option S → LlmCallPayload → Option String → Result String (List Message)
  effective_messages none p session_id = ok p.messages
  effective_messages (some s) p none = ok p.messages
  effective_messages (some s) p (some session_id) =
      deps.sessions.get_messages s session_id deps.history_limit >>= λ history.
      ok (map (λ m. record { role = m.role; content = m.content }) history ++ p.messages)

  -- every message in turn; what was kept before a throw stays kept
  unfoldable pub append_each : S → String → List ChatMessage → Result String Unit × S
  append_each s session_id [] = (ok tt, s)
  append_each s session_id (m ∷ ms) = elim (deps.sessions.append s session_id m) [
    | ok next ↦ append_each next session_id ms
    | thrown e ↦ (thrown e, s)
  ]

  -- the messages of the command and the reply, in the session if there is one
  unfoldable pub keep_messages :
      ExecutorState S
      → Option String
      → LlmCallPayload
      → LlmResponse
      → Times
      → Result String Unit × ExecutorState S
  keep_messages st none p r t = (ok tt, st)
  keep_messages st (some session_id) p r t = elim st.session_store [
    | none ↦ (ok tt, st)
    | some s ↦
        let kept = append_each s session_id (
          map (λ m. record { role = m.role; content = m.content; timestamp = t.kept }) p.messages
          ++ record { role = Role.assistant; content = r.content; timestamp = t.replied } ∷ []) in
        (kept.0, with_sessions st kept.1)
  ]

  -- after the LLM has answered, or has thrown
  unfoldable pub finish_llm_call :
      String
      → LlmCallPayload
      → Times
      → ExecutorState S
      → Result String LlmResponse
      → Result String ExecuteFeedback × ExecutorState S
  finish_llm_call id p t st (thrown e) = (thrown e, st)
  finish_llm_call id p t st (ok r) =
      let kept = keep_messages st (session_of p) p r t in (llm_feedback id r t kept.0, kept.1)

  abbrev pub ask_llm :
      String
      → LlmCallPayload
      → Option CommandConstraints
      → Times
      → ExecutorState S
      → Result String (List Message)
      → Result String ExecuteFeedback × ExecutorState S
  ask_llm id p constraints t st (thrown e) = (thrown e, st)
  ask_llm id p constraints t st (ok messages) =
      let req = llm_request p constraints messages in
      finish_llm_call id p t (with_call st (Call.llm req))
        (with_timeout (deps.llm req) (timeout_of constraints))

  unfoldable pub execute_llm_call :
      String
      → LlmCallPayload
      → Option CommandConstraints
      → Times
      → ExecutorState S
      → Result String ExecuteFeedback × ExecutorState S
  execute_llm_call id p constraints t st =
      ask_llm id p constraints t st (effective_messages st.session_store p (session_of p))

  abbrev pub invoke_tool :
      String
      → ToolCallPayload
      → Option CommandConstraints
      → Times
      → String
      → ExecutorState S
      → Tool
      → List String
      → Result String ExecuteFeedback × ExecutorState S
  invoke_tool id p constraints t commit_hash st tool [] =
      let ctx : ToolContext = record { command_id = id; upstream_commit_hash = commit_hash } in
      (
        tool_feedback id t (with_timeout (tool.invoke p.arguments ctx) (timeout_of constraints)),
        with_call st (Call.tool p.tool_name p.arguments ctx),
      )
  invoke_tool id p constraints t commit_hash st tool (cap ∷ missing) = (
    ok (
        refused_with id
          ("Tool capability not allowed: "
            <> p.tool_name
            <> " requires "
            <> join ", " (cap ∷ missing))
          t),
    st,
  )

  abbrev pub found_tool :
      String
      → ToolCallPayload
      → Option CommandConstraints
      → Times
      → String
      → ExecutorState S
      → Option Tool
      → Result String ExecuteFeedback × ExecutorState S
  found_tool id p constraints t commit_hash st none =
      (ok (refused_with id ("Tool not registered: " <> p.tool_name) t), st)
  found_tool id p constraints t commit_hash st (some tool) =
      invoke_tool id p constraints t commit_hash st tool (missing_of tool constraints)

  unfoldable pub execute_tool_call :
      String
      → ToolCallPayload
      → Option CommandConstraints
      → Times
      → String
      → ExecutorState S
      → Result String ExecuteFeedback × ExecutorState S
  execute_tool_call id p constraints t commit_hash st =
      if not (permits_tool constraints p.tool_name)
      then (ok (refused_with id ("Tool not in allowed_tools: " <> p.tool_name) t), st)
      else found_tool id p constraints t commit_hash st (get_tool deps.tools p.tool_name)

  unfoldable pub execute_channel_send :
      String
      → ChannelSendPayload
      → Times
      → String
      → ExecutorState S
      → Result String ExecuteFeedback × ExecutorState S
  execute_channel_send id p t commit_hash st = elim deps.dispatcher [
    | some dispatch ↦
        let meta : SendMeta = record { command_id = id; upstream_commit_hash = commit_hash } in
        (sent_feedback id p t (dispatch p meta), with_call st (Call.dispatch p meta))
    | none ↦ (
      ok (succeeded id (some (sent_json p Fields.end)) (metrics t none none)),
      with_call st (Call.log p),
    )
  ]

  unfoldable pub run_body :
      String
      → Body
      → Option CommandConstraints
      → String
      → Times
      → ExecutorState S
      → Result String ExecuteFeedback × ExecutorState S
  run_body id (Body.llm_call p) constraints commit_hash t st =
      execute_llm_call id p constraints t st
  run_body id (Body.tool_call p) constraints commit_hash t st =
      execute_tool_call id p constraints t commit_hash st
  run_body id (Body.channel_send p) constraints commit_hash t st =
      execute_channel_send id p t commit_hash st
  run_body id (Body.noop reason) constraints commit_hash t st =
      (ok (succeeded id (some Json.null) (metrics t none none)), st)

  unfoldable pub execute :
      ExecuteCommand → Times → ExecutorState S → ExecuteFeedback × ExecutorState S
  execute cmd t st =
      let r = run_body cmd.id cmd.body cmd.constraints cmd.upstream_decision.commit_hash t st in
      (caught cmd.id t r.0, r.1)
