-- ===== src/Schedule/Prepare.antt =====
-- apps/gateway/src/runtime_schedule.ts: `preparePending` and `buildPending`, which make a pending operation of a command.
use blue_tanuki.Base.{
  ℕ, ◌+◌, String, ◌==◌, false, Option, none, some, or_else, is_some, if◌then◌else◌, Result, ok,
  thrown, ◌>>=◌,
}
use blue_tanuki.Base.Text.{◌<>◌, show}
use blue_tanuki.Base.Dict.{Dict, get, put}
use blue_tanuki.Base.Json.{Json}
use blue_tanuki.Protocol.{ToolCallPayload, Body, ExecuteCommand}
use blue_tanuki.Approval.Types.{ApprovalEvaluation}
use blue_tanuki.Controller.Types.{ScheduleLifecycleEvent}
use blue_tanuki.Schedule.Types.{
  ScheduleStatus, RuntimeSchedule, ScheduleOperation, PendingOperation, ManagerState,
}
use blue_tanuki.Schedule.Args.{required_id, build_schedule_from_args}
use blue_tanuki.Schedule.Manager.{
  ManagerSetting, schedule_operation_name, lifecycle_from_pending, on_lifecycle, active_in,
  prune_expired_pending,
}

-- the id of a new schedule, or of the one that is changed
abbrev pub id_for : ScheduleOperation → Option Json → ℕ → String → Result String String
id_for ScheduleOperation.create none now uuid8 = ok ("runtime-" <> show now <> "-" <> uuid8)
id_for _ given now uuid8 = required_id given "id"

abbrev pub pending_operation_name : ManagerState → Option String → String
pending_operation_name st none = "operation"
pending_operation_name st (some command_id) = elim (get st.pending command_id) [
  | none ↦ "operation"
  | some p ↦ schedule_operation_name p.operation
]

abbrev pub free_id : ManagerState → String → Result String String
free_id st id =
    if is_some (get st.pending_by_schedule id)
    then thrown (
        "schedule "
        <> id
        <> " already has a pending "
        <> pending_operation_name st (get st.pending_by_schedule id)
        <> "; nothing was activated")
    else ok id

abbrev pub schedule_error_message : String → String
schedule_error_message reason =
    "[schedule-rejected] " <> reason <> " activated=false can_fire=false "
    <> "next_action=Run tool:schedule.list, fix the schedule request, and submit it again for approval."

abbrev pub store_pending :
    ManagerState
    → String
    → Result String PendingOperation
    → Result String PendingOperation × ManagerState
store_pending st command_id (thrown e) = (thrown (schedule_error_message e), st)
store_pending st command_id (ok p) = (
  ok p,
  on_lifecycle
      (record st {
        pending = put st.pending command_id p;
        pending_by_schedule = put st.pending_by_schedule p.schedule_id command_id;
      })
      ScheduleLifecycleEvent.requested (lifecycle_from_pending p),
)

-- the operation of a mutating schedule tool
abbrev pub operation_of : String → Option ScheduleOperation
operation_of tool =
    if tool == "schedule.create"
    then some ScheduleOperation.create
    else if tool == "schedule.update"
    then some ScheduleOperation.update
    else if tool == "schedule.delete"
    then some ScheduleOperation.delete
    else none

module _ (setting : ManagerSetting) where
  abbrev pub pending_from_schedule :
      ExecuteCommand
      → ApprovalEvaluation
      → ScheduleOperation
      → RuntimeSchedule
      → Option RuntimeSchedule
      → Option String
      → String
      → ℕ
      → PendingOperation
  pending_from_schedule cmd evaluation operation s previous request_id actor now = record {
    command_id = cmd.id;
    request_id = request_id;
    actor = actor;
    operation = operation;
    schedule_id = s.id;
    proposed = s;
    previous = previous;
    approval_level = evaluation.approval_level;
    risk = evaluation.risk;
    expires_at_ms = now + setting.approval_timeout_ms;
  }

  -- the schedule that the operation proposes, and the one before it
  abbrev pub proposal :
      ScheduleOperation
      → String
      → Dict Json
      → ℕ
      → Option RuntimeSchedule
      → Result String (RuntimeSchedule × Option RuntimeSchedule)
  proposal ScheduleOperation.create id args now previous =
      if is_some (active_in previous)
      then thrown ("schedule " <> id <> " is already active; nothing was activated")
      else build_schedule_from_args setting.digest id args now none >>= λ s. ok (s, previous)
  proposal ScheduleOperation.delete id args now previous = elim (active_in previous) [
    | none ↦ thrown ("schedule " <> id <> " is not active; nothing was changed")
    | some s ↦
        ok (
          record s { enabled = false; status = ScheduleStatus.pending; updated_at_ms = now },
          some s,
        )
  ]
  proposal ScheduleOperation.update id args now previous = elim (active_in previous) [
    | none ↦ thrown ("schedule " <> id <> " is not active; nothing was changed")
    | some s ↦
        build_schedule_from_args setting.digest id args now (some s) >>= λ next. ok (next, some s)
  ]

  unfoldable pub build_pending :
      ManagerState
      → ScheduleOperation
      → ExecuteCommand
      → ToolCallPayload
      → ApprovalEvaluation
      → Option String
      → String
      → ℕ
      → String
      → Result String PendingOperation
  build_pending st operation cmd p evaluation request_id actor now uuid8 =
      id_for operation (get p.arguments "id") now uuid8 >>= λ given. free_id st given >>= λ id.
      proposal operation id p.arguments now (get st.schedules id) >>= λ found.
      ok (pending_from_schedule cmd evaluation operation found.0 found.1 request_id actor now)

  abbrev pub prepare_tool :
      ManagerState
      → ExecuteCommand
      → ToolCallPayload
      → ApprovalEvaluation
      → Option String
      → String
      → ℕ
      → String
      → Option ScheduleOperation
      → Result String PendingOperation × ManagerState
  prepare_tool st cmd p evaluation request_id actor now uuid8 none = (
    thrown
        "schedule operation rejected: unsupported schedule tool; nothing was activated; retry with schedule.create/update/delete",
    st,
  )
  prepare_tool st cmd p evaluation request_id actor now uuid8 (some operation) =
      store_pending st cmd.id
        (build_pending st operation cmd p evaluation request_id actor now uuid8)

  abbrev pub prepare_body :
      ManagerState
      → ExecuteCommand
      → Body
      → ApprovalEvaluation
      → Option String
      → String
      → ℕ
      → String
      → Result String PendingOperation × ManagerState
  prepare_body st cmd (Body.tool_call p) evaluation request_id actor now uuid8 =
      prepare_tool st cmd p evaluation request_id actor now uuid8 (operation_of p.tool_name)
  prepare_body st cmd _ evaluation request_id actor now uuid8 = (
    thrown
        "schedule operation rejected: command is not a tool_call; nothing was activated; retry with tool:schedule.*",
    st,
  )

  -- `opts.actor ?? evaluation.context.actor`; `uuid8` is the beginning of a random UUID.
  unfoldable pub prepare_pending :
      ManagerState
      → ExecuteCommand
      → ApprovalEvaluation
      → Option String
      → Option String
      → ℕ
      → String
      → Result String PendingOperation × ManagerState
  prepare_pending st cmd evaluation request_id actor now uuid8 =
      let who = or_else actor evaluation.context.actor in
      prepare_body (prune_expired_pending setting st who now) cmd cmd.body evaluation request_id who
        now uuid8
