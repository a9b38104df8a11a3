-- ===== src/Process/Definition.antt =====
-- packages/hds-brain/src/process.ts: the process of a request and what its commands may do.
use blue_tanuki.Base.{
  String, Bool, true, false, ◌&&◌, ◌||◌, Option, none, some, List, [], ◌∷◌, ◌==◌, or_else,
  if◌then◌else◌, starts_with,
}
use blue_tanuki.Base.Text.{◌<>◌}
use blue_tanuki.Base.Trim.{trim}
use blue_tanuki.Base.Dict.{get}
use blue_tanuki.Base.Json.{truthy}
use blue_tanuki.Protocol.{CommandType}
use blue_tanuki.Approval.Types.{Mode}
use blue_tanuki.Approval.Operation.{final_review_operation_list}
use blue_tanuki.Process.Types.{
  InboundRequest, ActorKind, TrustLevel, ProcessKind, Trigger, ActorRef, MemoryReadPolicy,
  MemorySource, Retrieval, ExecutionPolicy, ProcessDefinition, CaptureEvent,
}
use blue_tanuki.Process.Actor.{meta_of, is_trusted_authority_context, explicit_field, named}

abbrev pub chat_memory_policy : MemoryReadPolicy
chat_memory_policy = record {
  policy_id = "memory.chat.v1";
  enabled = true;
  max_hits = 5;
  allowed_sources = MemorySource.hds_ltm ∷ [];
  retrieval_modes = Retrieval.recent ∷ Retrieval.tag ∷ Retrieval.exact ∷ [];
}

abbrev pub tool_memory_policy : MemoryReadPolicy
tool_memory_policy = record {
  policy_id = "memory.tool.v1";
  enabled = true;
  max_hits = 8;
  allowed_sources = MemorySource.hds_ltm ∷ MemorySource.authority ∷ MemorySource.audit ∷ [];
  retrieval_modes = Retrieval.exact ∷ Retrieval.tag ∷ Retrieval.recent ∷ [];
}

abbrev pub low_trust_memory_policy : MemoryReadPolicy
low_trust_memory_policy = record {
  policy_id = "memory.low_trust.v1";
  enabled = true;
  max_hits = 3;
  allowed_sources = MemorySource.hds_ltm ∷ [];
  retrieval_modes = Retrieval.exact ∷ Retrieval.tag ∷ [];
}

unfoldable pub process_kind_of : String → Option ProcessKind
process_kind_of s =
    if s == "chat"
    then some ProcessKind.chat
    else if s == "tool"
    then some ProcessKind.tool
    else if s == "approval"
    then some ProcessKind.approval
    else if s == "cron"
    then some ProcessKind.cron
    else if s == "webhook"
    then some ProcessKind.webhook
    else if s == "system"
    then some ProcessKind.system
    else none

-- the tests of `inferProcessKind` after those on the actor's kind
unfoldable pub infer_from_content : InboundRequest → ProcessKind
infer_from_content req =
    let trimmed = trim req.content in
    let meta = meta_of req in
    if starts_with trimmed "tool:"
      || starts_with trimmed "/tool"
      || truthy (get meta "blue_tanuki.tool_call")
      || truthy (get meta "tool_call")
    then ProcessKind.tool
    else if is_trusted_authority_context meta
        && (truthy (get meta "blue_tanuki.resume") || truthy (get meta "resume"))
    then ProcessKind.approval
    else ProcessKind.chat

unfoldable pub infer_process_kind : InboundRequest → ActorKind → ProcessKind
unfolding infer_from_content
infer_process_kind req ActorKind.cron = ProcessKind.cron
infer_process_kind req ActorKind.webhook = ProcessKind.webhook
infer_process_kind req _ = infer_from_content req

unfoldable pub trigger_kind : ProcessKind → Trigger
trigger_kind ProcessKind.cron = Trigger.cron
trigger_kind ProcessKind.webhook = Trigger.webhook
trigger_kind ProcessKind.approval = Trigger.resume
trigger_kind _ = Trigger.inbound

unfoldable pub allowed_actor_kinds : ProcessKind → List ActorKind
allowed_actor_kinds ProcessKind.approval = ActorKind.owner ∷ ActorKind.user ∷ []
allowed_actor_kinds ProcessKind.cron = ActorKind.cron ∷ ActorKind.system ∷ ActorKind.owner ∷ []
allowed_actor_kinds ProcessKind.webhook = ActorKind.webhook ∷ []
allowed_actor_kinds _ =
    ActorKind.owner ∷ ActorKind.user ∷ ActorKind.system ∷ ActorKind.cron ∷ ActorKind.webhook ∷ []

-- the tools that the tool process and the processes without a policy of their own list
abbrev pub built_in_tools : List String
built_in_tools =
    "echo" ∷ "file.search" ∷ "file.write" ∷ "file.edit" ∷ "http.fetch" ∷ "web.search"
    ∷ "github.read" ∷ "github.write" ∷ "gmail.read" ∷ "google.calendar.read" ∷ "google.drive.read"
    ∷ "gmail.write" ∷ "google.calendar.write" ∷ "google.drive.write" ∷ "browser.read"
    ∷ "browser.snapshot" ∷ "browser.automation" ∷ "shell.exec" ∷ "schedule.list" ∷ "schedule.create"
    ∷ "schedule.update" ∷ "schedule.delete" ∷ []

abbrev pub tool_capabilities : List String
tool_capabilities =
    "tool:echo" ∷ "tool:file.search" ∷ "tool:file.write" ∷ "tool:file.edit" ∷ "fs:read" ∷ "fs:write"
    ∷ "tool:http.fetch" ∷ "tool:web.search" ∷ "tool:github.read" ∷ "tool:github.write"
    ∷ "tool:gmail.read" ∷ "tool:google.calendar.read" ∷ "tool:google.drive.read"
    ∷ "tool:gmail.write" ∷ "tool:google.calendar.write" ∷ "tool:google.drive.write"
    ∷ "tool:browser.read" ∷ "tool:browser.snapshot" ∷ "tool:browser.automation" ∷ "browser:snapshot"
    ∷ "browser:act" ∷ "tool:shell.exec" ∷ "tool:schedule.list" ∷ "tool:schedule.create"
    ∷ "tool:schedule.update" ∷ "tool:schedule.delete" ∷ "schedule:read" ∷ "schedule:create"
    ∷ "schedule:update" ∷ "schedule:delete" ∷ "network:http" ∷ "network:github.com"
    ∷ "network:googleapis.com" ∷ "secrets:GITHUB_TOKEN" ∷ "secrets:GOOGLE_ACCESS_TOKEN"
    ∷ "secrets:GMAIL_ACCESS_TOKEN" ∷ "secrets:GOOGLE_CALENDAR_ACCESS_TOKEN"
    ∷ "secrets:GOOGLE_DRIVE_ACCESS_TOKEN" ∷ "google:gmail.read" ∷ "google:calendar.read"
    ∷ "google:drive.read" ∷ "google:gmail.write" ∷ "google:calendar.write" ∷ "google:drive.write"
    ∷ "external:send" ∷ "email:send" ∷ "github:issue.write" ∷ "github:pr.write"
    ∷ "github:comment.write" ∷ "shell:exec" ∷ []

unfoldable pub execution_policy : ProcessKind → ExecutionPolicy
execution_policy ProcessKind.tool = record {
  allowed_command_types = CommandType.tool_call ∷ CommandType.noop ∷ [];
  allowed_tools = built_in_tools;
  allowed_capabilities = tool_capabilities;
  timeout_ms = 15000;
}
execution_policy ProcessKind.cron = record {
  allowed_command_types = CommandType.llm_call ∷ CommandType.channel_send ∷ CommandType.noop ∷ [];
  allowed_tools = [];
  allowed_capabilities = "channel:send" ∷ [];
  timeout_ms = 30000;
}
execution_policy ProcessKind.webhook = record {
  allowed_command_types = CommandType.noop ∷ CommandType.channel_send ∷ [];
  allowed_tools = [];
  allowed_capabilities = [];
  timeout_ms = 10000;
}
execution_policy _ = record {
  allowed_command_types = CommandType.llm_call ∷ CommandType.tool_call ∷ CommandType.noop ∷ [];
  allowed_tools = built_in_tools;
  allowed_capabilities = [];
  timeout_ms = 30000;
}

abbrev pub process_kind_name : ProcessKind → String
process_kind_name ProcessKind.chat = "chat"
process_kind_name ProcessKind.tool = "tool"
process_kind_name ProcessKind.approval = "approval"
process_kind_name ProcessKind.cron = "cron"
process_kind_name ProcessKind.webhook = "webhook"
process_kind_name ProcessKind.system = "system"

abbrev pub is_low_trust : TrustLevel → Bool
is_low_trust TrustLevel.limited = true
is_low_trust TrustLevel.untrusted = true
is_low_trust _ = false

unfoldable pub memory_policy_for : ProcessKind → Bool → MemoryReadPolicy
memory_policy_for ProcessKind.tool low_trust = tool_memory_policy
memory_policy_for ProcessKind.webhook low_trust = low_trust_memory_policy
memory_policy_for _ low_trust = if low_trust then low_trust_memory_policy else chat_memory_policy

abbrev pub needs_owner : ProcessKind → Bool
needs_owner ProcessKind.approval = true
needs_owner _ = false

-- the process kind that a request resolves to
unfoldable pub resolve_process_kind : InboundRequest → ActorRef → ProcessKind
resolve_process_kind req actor =
    or_else
      (named process_kind_of
        (explicit_field (meta_of req) "blue_tanuki.process_kind" "process_kind"))
      (infer_process_kind req actor.actor_kind)

unfoldable pub resolve_process : InboundRequest → ActorRef → ProcessDefinition
resolve_process req actor =
    let kind = resolve_process_kind req actor in
    record {
      process_id = process_kind_name kind <> ".process";
      process_kind = kind;
      version = "v1";
      trigger = trigger_kind kind;
      trigger_channel = some req.channel;
      allowed_actor_kinds = allowed_actor_kinds kind;
      owner_required = needs_owner kind;
      memory_policy = memory_policy_for kind (is_low_trust actor.trust_level);
      default_mode = Mode.full_access;
      final_review_operations = final_review_operation_list;
      execution_policy = execution_policy kind;
      capture_on =
          CaptureEvent.assert ∷ CaptureEvent.approval ∷ CaptureEvent.feedback ∷ CaptureEvent.failure
          ∷ [];
      persist_to_ltm = true;
    }
