-- ===== src/Approval/Operation.antt =====
-- packages/hds-brain/src/approval_policy.ts: which operation a command is, and how risky.
use blue_tanuki.Base.{
  String, Bool, false, ◌||◌, Option, none, some, List, [], ◌∷◌, ◌==◌, starts_with, any, or_else,
  test, if◌then◌else◌,
}
use blue_tanuki.Base.Text.{includes}
use blue_tanuki.Protocol.{ExecuteCommand, Body}
use blue_tanuki.Approval.Types.{
  Operation, Risk, Level, ApprovalContext, Operation-discrete, Risk-discrete,
}

unfoldable pub has_any : List String → List String → Bool
has_any caps needles = any (λ n. includes caps n) needles

unfoldable pub has_prefix : List String → String → Bool
has_prefix caps prefix = any (λ cap. starts_with cap prefix) caps

-- `tool_call` with this tool
abbrev pub is_tool : Body → String → Bool
is_tool (Body.tool_call p) name = p.tool_name == name
is_tool _ name = false

-- the tests on the tool's name that end the function
unfoldable pub operation_of_tool : String → Operation
operation_of_tool name =
    if name == "schedule.list"
    then Operation.schedule_list
    else if name == "schedule.create"
    then Operation.schedule_create
    else if name == "schedule.update"
    then Operation.schedule_update
    else if name == "schedule.delete"
    then Operation.schedule_delete
    else if name == "file.search"
    then Operation.file_search
    else if name == "http.fetch"
    then Operation.network_http
    else if name == "browser.snapshot"
    then Operation.browser_snapshot
    else if name == "browser.automation"
    then Operation.browser_automation
    else Operation.tool_call

-- the tests on the command's type, where no capability decides
unfoldable pub operation_of_body : Body → Operation
unfolding operation_of_tool
operation_of_body (Body.llm_call _) = Operation.llm_call
operation_of_body (Body.channel_send _) = Operation.channel_send
operation_of_body (Body.tool_call p) = operation_of_tool p.tool_name
operation_of_body (Body.noop _) = Operation.unknown

-- the tests on the capabilities, in the source's order; the first that holds decides
unfoldable pub operation_of_capabilities : Body → List String → Option Operation
operation_of_capabilities body caps =
    if has_any caps ("credential:read" ∷ "credential.access" ∷ "secrets:read" ∷ [])
    then some Operation.credential_access
    else if has_any caps ("payment:charge" ∷ "billing:write" ∷ [])
    then some Operation.payment_charge
    else if has_any caps ("schedule:read" ∷ [])
    then some Operation.schedule_list
    else if has_any caps ("schedule:create" ∷ "automation:create" ∷ [])
    then some Operation.schedule_create
    else if has_any caps ("schedule:update" ∷ "automation:update" ∷ [])
    then some Operation.schedule_update
    else if has_any caps ("schedule:delete" ∷ "automation:delete" ∷ [])
    then some Operation.schedule_delete
    else if has_any caps ("tool:github.write" ∷ []) || has_prefix caps "github:"
    then some Operation.github_write
    else if has_any caps
          ("tool:gmail.write" ∷ "tool:google.calendar.write" ∷ "tool:google.drive.write" ∷ [])
        || has_any caps ("google:gmail.write" ∷ "google:calendar.write" ∷ "google:drive.write" ∷ [])
    then some Operation.google_write
    else if has_any caps ("browser:act" ∷ "tool:browser.automation" ∷ [])
    then some Operation.browser_automation
    else if has_any caps ("browser:snapshot" ∷ "tool:browser.snapshot" ∷ [])
    then some Operation.browser_snapshot
    else if has_prefix caps "secrets:" || has_prefix caps "google:"
    then some Operation.credential_access
    else if has_any caps ("settings:write" ∷ [])
    then some Operation.settings_write
    else if has_any caps ("shell:exec" ∷ "process:exec" ∷ [])
    then some Operation.shell_exec
    else if has_any caps ("fs:delete" ∷ "file:delete" ∷ [])
    then some Operation.file_delete
    else if has_any caps ("fs:write" ∷ "file:write" ∷ [])
    then some Operation.file_write
    else if has_any caps ("fs:read" ∷ "file:read" ∷ [])
    then some (if is_tool body "file.search" then Operation.file_search else Operation.file_read)
    else if has_any caps ("network:http" ∷ "http.fetch" ∷ []) || has_prefix caps "network:"
    then some Operation.network_http
    else if has_any caps ("external:send" ∷ "email:send" ∷ "slack:send" ∷ "discord:send" ∷ [])
    then some Operation.external_send
    else none

unfoldable pub classify : Body → List String → Operation
unfolding operation_of_capabilities operation_of_body
classify (Body.noop _) caps = Operation.noop
classify body caps = or_else (operation_of_capabilities body caps) (operation_of_body body)

unfoldable pub operation_from_command : ExecuteCommand → List String → Operation
unfolding classify
operation_from_command c caps = classify c.body caps

-- FINAL_REVIEW_OPERATION_LIST
abbrev pub final_review_operation_list : List Operation
final_review_operation_list =
    Operation.tool_call ∷ Operation.file_delete ∷ Operation.shell_exec ∷ Operation.external_send
    ∷ Operation.credential_access ∷ Operation.settings_write ∷ Operation.schedule_create
    ∷ Operation.schedule_update ∷ Operation.schedule_delete ∷ Operation.browser_automation
    ∷ Operation.github_write ∷ Operation.google_write ∷ Operation.payment_charge ∷ Operation.unknown
    ∷ []

unfoldable pub is_among : Operation → List Operation → Bool
is_among op ops = any (λ o. test (Operation-discrete o op)) ops

unfoldable pub risk_for_operation : Operation → List String → Risk
unfolding is_among
risk_for_operation op caps =
    if is_among op (Operation.tool_call ∷ Operation.unknown ∷ [])
    then Risk.high
    else if is_among op (Operation.credential_access ∷ Operation.payment_charge ∷ [])
    then Risk.high
    else if is_among op (
        Operation.file_delete ∷ Operation.shell_exec ∷ Operation.external_send
        ∷ Operation.settings_write ∷ Operation.schedule_create ∷ Operation.schedule_update
        ∷ Operation.schedule_delete ∷ Operation.browser_automation ∷ Operation.github_write
        ∷ Operation.google_write ∷ [])
    then Risk.high
    else if is_among op (
          Operation.file_write ∷ Operation.network_http ∷ Operation.browser_snapshot
          ∷ Operation.channel_send ∷ [])
        || has_prefix caps "network:"
    then Risk.medium
    else Risk.low

unfoldable pub final_review_required : ApprovalContext → Bool
unfolding is_among
final_review_required ctx =
    is_among ctx.operation final_review_operation_list || test (Risk-discrete ctx.risk Risk.high)

unfoldable pub approval_level_from_context : ApprovalContext → Level
unfolding final_review_required
approval_level_from_context ctx =
    if final_review_required ctx
    then Level.final_review
    else if test (Risk-discrete ctx.risk Risk.low)
    then Level.observe
    else Level.operate
