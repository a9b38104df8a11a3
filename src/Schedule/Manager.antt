-- ===== src/Schedule/Manager.antt =====
-- apps/gateway/src/runtime_schedule.ts: RuntimeScheduleManager. Each operation takes the time that `now` gives, and
-- those that await the file take whether writing it fails. `before` is the order of `localeCompare`.
use blue_tanuki.Base.{
  ℕ, String, Bool, true, false, ◌&&◌, Option, none, some, List, [], ◌∷◌, ◌++◌, map, leb,
  if◌then◌else◌,
}
use blue_tanuki.Base.Dict.{get, put, remove}
use blue_tanuki.Base.Sort.{sort_by}
use blue_tanuki.Controller.Types.{ScheduleLifecycleEvent}
use blue_tanuki.Schedule.Types.{
  ScheduleStatus, RuntimeSchedule, ScheduleOperation, PendingOperation, ScheduleLifecycle, TaskName,
  TaskOrigin, CronTask, ManagerState,
}
use blue_tanuki.Schedule.Cron.{LocalClock}

-- What the manager is built with, and what it calls of the runtime.
pub record ManagerSetting : Type 0 where
  pub digest : String → String → String → String → Option ℕ → String
  pub local : LocalClock
  pub before : String → String → Bool
  pub approval_timeout_ms : ℕ

abbrev pub is_active : RuntimeSchedule → Bool
is_active s = elim s.status [ ScheduleStatus.active ↦ true | _ ↦ false ]

abbrev pub is_delete : ScheduleOperation → Bool
is_delete op = elim op [ ScheduleOperation.delete ↦ true | _ ↦ false ]

abbrev pub schedule_operation_name : ScheduleOperation → String
schedule_operation_name ScheduleOperation.create = "create"
schedule_operation_name ScheduleOperation.update = "update"
schedule_operation_name ScheduleOperation.delete = "delete"

abbrev pub to_cron_task : RuntimeSchedule → CronTask
to_cron_task s = record {
  id = s.id;
  name = some TaskName.scheduled_message;
  origin = some TaskOrigin.runtime;
  enabled = some (s.enabled && is_active s);
  channel = s.channel;
  target = s.target;
  content = s.content;
  time = s.time;
  interval_ms = s.interval_ms;
  payload_hash = some s.payload_hash;
}

abbrev pub hash_of : Option RuntimeSchedule → Option String
hash_of none = none
hash_of (some s) = some s.payload_hash

abbrev pub lifecycle_from_pending : PendingOperation → ScheduleLifecycle
lifecycle_from_pending p = record {
  schedule_id = p.schedule_id;
  operation = p.operation;
  actor = p.actor;
  approval_level = p.approval_level;
  risk = p.risk;
  payload_hash = p.proposed.payload_hash;
  previous_payload_hash = hash_of p.previous;
  command_id = p.command_id;
  request_id = p.request_id;
}

abbrev pub on_lifecycle : ManagerState → ScheduleLifecycleEvent → ScheduleLifecycle → ManagerState
on_lifecycle st event l = record st { events = st.events ++ (event, l) ∷ [] }

-- `persist`, whose write may fail: the records in the order of their ids
abbrev pub persist : (String → String → Bool) → ManagerState → ManagerState
persist before st = record st {
  writes = st.writes ++ sort_by (λ a b. before a.id b.id) (map (λ e. e.1) st.schedules) ∷ [];
}

abbrev pub set_schedule : ManagerState → RuntimeSchedule → ManagerState
set_schedule st s = record st { schedules = put st.schedules s.id s }

abbrev pub without_pending : ManagerState → String → PendingOperation → ManagerState
without_pending st command_id p = record st {
  pending = remove st.pending command_id;
  pending_by_schedule = remove st.pending_by_schedule p.schedule_id;
}

-- A proposed schedule that was refused stays listed as rejected.
abbrev pub rejected_schedule : PendingOperation → ℕ → RuntimeSchedule
rejected_schedule p now = record p.proposed {
  enabled = false;
  status = ScheduleStatus.rejected;
  updated_at_ms = now;
}

abbrev pub active_in : Option RuntimeSchedule → Option RuntimeSchedule
active_in none = none
active_in (some s) = if is_active s then some s else none

module _ (setting : ManagerSetting) where
  abbrev pub keep_rejected : ManagerState → PendingOperation → ℕ → ManagerState
  keep_rejected st p now = elim p.operation [
    | ScheduleOperation.create ↦ persist setting.before (set_schedule st (rejected_schedule p now))
    | _ ↦ st
  ]

  abbrev pub reject_found : ManagerState → String → String → ℕ → PendingOperation → ManagerState
  reject_found st command_id actor now p =
      on_lifecycle (keep_rejected (without_pending st command_id p) p now)
        ScheduleLifecycleEvent.rejected
        (record (lifecycle_from_pending p) { actor = actor; command_id = command_id })

  unfoldable pub reject_pending :
      ManagerState → String → String → ℕ → Option PendingOperation × ManagerState
  reject_pending st command_id actor now = elim (get st.pending command_id) [
    | none ↦ (none, st)
    | some p ↦ (some p, reject_found st command_id actor now p)
  ]

  -- those that were pending at the start, in their order
  unfoldable pub reject_expired : List PendingOperation → ManagerState → String → ℕ → ManagerState
  reject_expired [] st actor now = st
  reject_expired (p ∷ ps) st actor now =
      reject_expired ps
        (if leb p.expires_at_ms now then (reject_pending st p.command_id actor now).1 else st) actor
        now

  abbrev pub prune_expired_pending : ManagerState → String → ℕ → ManagerState
  prune_expired_pending st actor now = reject_expired (map (λ e. e.1) st.pending) st actor now
