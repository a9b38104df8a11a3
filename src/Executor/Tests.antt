-- ===== src/Executor/Tests.antt =====
-- An executor with one tool, an LLM that answers after a second, and a session of two messages.
use blue_tanuki.Base.{◌≡◌, ◌⊎◌, refl, true, none, some, List, [], ◌∷◌, ◌++◌, All, ok}
use blue_tanuki.Base.Text.{includes}
use blue_tanuki.Base.Json.{Json}
use blue_tanuki.Protocol.{Decision, Role, LlmCallPayload, ToolCallPayload, Body, ExecuteCommand}
use blue_tanuki.Process.Types.{ProcessKind, ProcessDefinition}
use blue_tanuki.Process.Definition.{execution_policy, resolve_process}
use blue_tanuki.Process.Actor.{resolve_actor}
use blue_tanuki.Controller.Tests.{hello}
use blue_tanuki.Session.{SessionStore}
use blue_tanuki.Session.Refinement.{SessionOp, append}
use blue_tanuki.Executor.Types.{Tool, ChatMessage, Call, ExecutorState, Times}
use blue_tanuki.Executor.Registry.{get_tool}
use blue_tanuki.Executor.Run.{ExecutorDeps, with_timeout, with_call, required_of, execute}
use blue_tanuki.Executor.Gate.{Gated, context_of, execute-Gated}
use blue_tanuki.Executor.Policy.{execute-within_policy}
use blue_tanuki.Executor.History.{
  memory_sessions, on_memory, store_of, asked, Continued, execute-Continued,
}
use blue_tanuki.Controller.Command.{command_execution_policy_violation}
use blue_tanuki.Protocol.{CommandType-discrete}

abbrev echo : Tool
echo = record {
  name = "echo";
  description = "Returns its arguments verbatim.";
  required_capabilities = some ("tool:echo" ∷ []);
  invoke = λ args ctx. record { outcome = ok (some (Json.str "echoed")); elapsed_ms = 5 };
}

abbrev deps : ExecutorDeps (SessionStore ChatMessage)
deps = record {
  llm = λ req. record {
    outcome = ok (record { content = "hi"; tokens_used = 3; model = "m"; raw = none });
    elapsed_ms = 1000;
  };
  tools = record { tools = ("echo", echo) ∷ [] };
  dispatcher = none;
  sessions = memory_sessions;
  history_limit = none;
}

abbrev times : Times
times = record { start = 1; kept = 2; replied = 3; finish = 4 }

abbrev command : Body → ExecuteCommand
command body = record {
  id = "c1";
  body = body;
  constraints = some (record {
    max_tokens = none;
    timeout_ms = some 5000;
    allowed_tools = some ("echo" ∷ []);
    allowed_capabilities = some ("tool:echo" ∷ []);
  });
  upstream_decision = record {
    frame_goal = "g";
    model_abstraction = "m";
    commit_hash = "h";
    commit_decision = Decision.assert;
  };
}

abbrev call : ToolCallPayload
call = record { tool_name = "echo"; arguments = [] }

abbrev said : List (SessionOp ChatMessage)
said = append "s" (record { role = Role.user; content = "a"; timestamp = 0 }) ∷ []

abbrev idle : ExecutorState (SessionStore ChatMessage)
idle = record { session_store = some (store_of deps 2 said); calls = [] }

execute-Gated_example :
    Gated deps
      (command (Body.tool_call call))
      call
      times
      idle
      (execute deps (command (Body.tool_call call)) times idle)
execute-Gated_example = execute-Gated deps (command (Body.tool_call call)) call times idle refl

abbrev process : ProcessDefinition
process = record (resolve_process hello (resolve_actor hello)) {
  execution_policy = execution_policy ProcessKind.tool;
}

allowed : command_execution_policy_violation (command (Body.tool_call call)) process ≡ none
unfolding command_execution_policy_violation execution_policy CommandType-discrete includes
allowed = refl

execute-within_policy_example :
    ((execute deps (command (Body.tool_call call)) times idle).1 ≡ idle)
    ⊎ ((tool : Tool) × (get_tool deps.tools "echo" ≡ some tool)
        × ((execute deps (command (Body.tool_call call)) times idle).1
            ≡ with_call idle
                (Call.tool "echo" [] (context_of deps (command (Body.tool_call call)))))
        × (includes process.execution_policy.allowed_tools "echo" ≡ true)
        × All
            (λ cap. includes process.execution_policy.allowed_capabilities cap ≡ true)
            (required_of tool))
execute-within_policy_example =
    execute-within_policy deps (command (Body.tool_call call)) call process times idle refl allowed

abbrev question : LlmCallPayload
question = record {
  messages = record { role = Role.user; content = "b" } ∷ [];
  backend_hint = none;
  model = none;
  temperature = none;
  session_id = some "s";
}

execute-Continued_example :
    let req = asked deps (command (Body.llm_call question)) question 2 said "s" in
    ((execute (on_memory deps) (command (Body.llm_call question)) times idle).1.calls
      ≡ idle.calls ++ Call.llm req ∷ [])
    × Continued deps question times 2 said "s"
        (with_timeout (deps.llm req) (some 5000))
        (execute (on_memory deps) (command (Body.llm_call question)) times idle).1.session_store
execute-Continued_example =
    execute-Continued deps (command (Body.llm_call question)) question times idle 2 said "s" refl
      refl refl
