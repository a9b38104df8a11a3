-- ===== src/Approval/Scope.antt =====
-- packages/hds-brain/src/approval_policy.ts: `scopeFromCommand`, what a command is aimed at.
use blue_tanuki.Base.{
  String, Bool, true, false, ◌&&◌, Option, none, some, List, [], ◌∷◌, ◌==◌, or_else, if◌then◌else◌,
}
use blue_tanuki.Base.Text.{◌<>◌, join}
use blue_tanuki.Base.Dict.{get}
use blue_tanuki.Base.Json.{as_string}
use blue_tanuki.Protocol.{ExecuteCommand, Body, ToolCallPayload}
use blue_tanuki.Approval.Types.{Operation, Scope}
use blue_tanuki.Approval.Grants.{given}

-- The texts that the source's operations are.
abbrev pub operation_name : Operation → String
operation_name Operation.noop = "noop"
operation_name Operation.llm_call = "llm.call"
operation_name Operation.tool_call = "tool.call"
operation_name Operation.file_read = "tool.file.read"
operation_name Operation.file_search = "tool.file.search"
operation_name Operation.file_write = "tool.file.write"
operation_name Operation.file_delete = "tool.file.delete"
operation_name Operation.shell_exec = "tool.shell.exec"
operation_name Operation.network_http = "tool.network.http"
operation_name Operation.browser_snapshot = "browser.snapshot"
operation_name Operation.browser_automation = "browser.automation"
operation_name Operation.channel_send = "channel.send"
operation_name Operation.external_send = "external.send"
operation_name Operation.settings_write = "settings.write"
operation_name Operation.credential_access = "credential.access"
operation_name Operation.schedule_list = "schedule.list"
operation_name Operation.schedule_create = "schedule.create"
operation_name Operation.schedule_update = "schedule.update"
operation_name Operation.schedule_delete = "schedule.delete"
operation_name Operation.github_write = "github.write"
operation_name Operation.google_write = "google.write"
operation_name Operation.payment_charge = "payment.charge"
operation_name Operation.unknown = "unknown"

pub record ScopeTarget : Type 0 where
  pub target_scope : Scope
  pub target : Option String
  pub path_pattern : Option String
  pub channel : Option String

abbrev pub task : String → ScopeTarget
task target = record {
  target_scope = Scope.task_type;
  target = some target;
  path_pattern = none;
  channel = none;
}

-- the string arguments that are there and not empty
abbrev pub present : List (Option String) → List String
present [] = []
present (none ∷ os) = present os
present (some s ∷ os) = if s == "" then present os else s ∷ present os

-- `a || b` on texts
abbrev pub or_text : String → String → String
or_text s t = if s == "" then t else s

-- a browser command's target
abbrev pub browser_target : ToolCallPayload → Option String → Operation → String
browser_target p none op = p.tool_name
browser_target p (some url) op = if url == "" then p.tool_name else operation_name op <> ":" <> url

abbrev pub is_read : Operation → Bool
is_read Operation.file_read = true
is_read Operation.file_search = true
is_read _ = false

-- `pathValue ?? rootValue`
abbrev pub or_option : Option String → Option String → Option String
or_option none o = o
or_option (some s) o = some s

abbrev pub file_scope :
    ToolCallPayload → Option String → Option String → Option String → Operation → ScopeTarget
file_scope p path root query op =
    let file_target = or_option path root in
    if given file_target
    then record {
      target_scope = if is_read op then Scope.folder else Scope.file;
      target = file_target;
      path_pattern = file_target;
      channel = none;
    }
    else if given query
    then task (p.tool_name <> ":" <> or_else query "")
    else task p.tool_name

unfoldable pub scope_of_tool : ToolCallPayload → Operation → ScopeTarget
scope_of_tool p op =
    let text = λ (key : String). as_string (get p.arguments key) in
    elim op [
      | Operation.github_write ↦ record {
        target_scope = Scope.repo;
        target = some (
            if given (text "owner") && given (text "repo")
            then or_else (text "owner") "" <> "/" <> or_else (text "repo") ""
            else p.tool_name);
        path_pattern = none;
        channel = none;
      }
      | Operation.google_write ↦ task (
          or_text
            (join ":" (
              present (
                some p.tool_name
                ∷ text "operation"
                ∷ text "calendar_id"
                ∷ text "event_id"
                ∷ text "file_id"
                ∷ text "name"
                ∷ text "to"
                ∷ [])))
            p.tool_name)
      | Operation.browser_snapshot ↦ task (browser_target p (text "url") Operation.browser_snapshot)
      | Operation.browser_automation ↦
          task (browser_target p (text "url") Operation.browser_automation)
      | other ↦ file_scope p (text "path") (text "root") (text "query") other
    ]

unfoldable pub scope_from_command : ExecuteCommand → Operation → ScopeTarget
unfolding scope_of_tool
scope_from_command c op = elim c.body [
  | Body.channel_send p ↦ record {
    target_scope = Scope.channel;
    target = some (p.channel <> ":" <> p.target);
    path_pattern = none;
    channel = some p.channel;
  }
  | Body.tool_call p ↦ scope_of_tool p op
  | Body.llm_call _ ↦ task "llm_call"
  | Body.noop _ ↦ task "noop"
]
