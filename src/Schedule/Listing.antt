-- ===== src/Schedule/Listing.antt =====
-- apps/gateway/src/runtime_schedule.ts: what the manager lists and counts.
use blue_tanuki.Base.{
  ℕ, String, Bool, false, not, ◌&&◌, Option, none, some, List, ◌++◌, map, filter, length, or_else,
  is_some, if◌then◌else◌,
}
use blue_tanuki.Base.Dict.{get}
use blue_tanuki.Base.Sort.{sort_by}
use blue_tanuki.Protocol.{Body, ExecuteCommand}
use blue_tanuki.Schedule.Types.{
  ScheduleStatus, RuntimeSchedule, PendingOperation, CronTask, CronScheduler, ManagerState,
  RuntimeScheduleSnapshot,
}
use blue_tanuki.Schedule.Manager.{ManagerSetting, is_active, to_cron_task, prune_expired_pending}
use blue_tanuki.Schedule.Prepare.{operation_of}

abbrev pub pending_of : ManagerState → String → Option PendingOperation
pending_of st schedule_id = get st.pending (or_else (get st.pending_by_schedule schedule_id) "")

abbrev pub of_pending {ℓ} :
    {A : Type ℓ} → (PendingOperation → A) → Option PendingOperation → Option A
of_pending f none = none
of_pending f (some p) = some (f p)

-- with the operation that waits for approval, if one does
abbrev pub snapshot_with : RuntimeSchedule → Option PendingOperation → RuntimeScheduleSnapshot
snapshot_with s op = record {
  id = s.id;
  enabled = s.enabled;
  channel = s.channel;
  target = s.target;
  time = or_else s.time "07:00";
  interval_ms = s.interval_ms;
  created_at_ms = s.created_at_ms;
  updated_at_ms = s.updated_at_ms;
  payload_hash = s.payload_hash;
  status = if is_some op then ScheduleStatus.pending else s.status;
  pending_operation = of_pending (λ p. p.operation) op;
  pending_command_id = of_pending (λ p. p.command_id) op;
  approval_expires_at_ms = of_pending (λ p. p.expires_at_ms) op;
}

abbrev pub is_new : ManagerState → PendingOperation → Bool
is_new st p = not (is_some (get st.schedules p.schedule_id))

abbrev pub snapshots_of : ManagerState → List RuntimeScheduleSnapshot
snapshots_of st =
    map (λ e. snapshot_with e.1 (pending_of st e.1.id)) st.schedules
    ++ map (λ p. snapshot_with p.proposed (some p)) (filter (is_new st) (map (λ e. e.1) st.pending))

-- the snapshots, how many operations wait, and the state
unfoldable pub list_schedules :
    ManagerSetting → ManagerState → ℕ → (List RuntimeScheduleSnapshot × ℕ) × ManagerState
list_schedules setting st now =
    let live = prune_expired_pending setting st "system" now in
    ((sort_by (λ a b. setting.before a.id b.id) (snapshots_of live), length live.pending), live)

abbrev pub pending_count : ManagerSetting → ManagerState → ℕ → ℕ × ManagerState
pending_count setting st now =
    let live = prune_expired_pending setting st "system" now in (length live.pending, live)

abbrev pub has_pending : ManagerSetting → ManagerState → String → ℕ → Bool × ManagerState
has_pending setting st command_id now =
    let live = prune_expired_pending setting st "system" now in
    (is_some (get live.pending command_id), live)

abbrev pub attach_scheduler : ManagerState → CronScheduler → ManagerState
attach_scheduler st c = record st { scheduler = some c }

abbrev pub enabled_schedules : ManagerState → List RuntimeSchedule
enabled_schedules st = filter (λ s. is_active s && s.enabled) (map (λ e. e.1) st.schedules)

abbrev pub active_cron_tasks : ManagerState → List CronTask
active_cron_tasks st = map to_cron_task (enabled_schedules st)

abbrev pub active_count : ManagerState → ℕ
active_count st = length (enabled_schedules st)

-- the commands that ask for an operation
abbrev pub runtime_schedule_mutation_command : ExecuteCommand → Bool
runtime_schedule_mutation_command cmd = elim cmd.body [
  | Body.tool_call p ↦ is_some (operation_of p.tool_name)
  | _ ↦ false
]
