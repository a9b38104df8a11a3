-- ===== src/Schedule/Approve.antt =====
-- apps/gateway/src/runtime_schedule.ts: `approvePending`, which the tools schedule.create, update and delete invoke,
-- and what the manager lists.
use blue_tanuki.Base.{ℕ, String, true, false, Option, none, some, List, [], ◌∷◌, Result, ok, thrown}
use blue_tanuki.Base.Dict.{get}
use blue_tanuki.Controller.Types.{ScheduleLifecycleEvent}
use blue_tanuki.Schedule.Types.{
  ScheduleStatus, RuntimeSchedule, ScheduleOperation, PendingOperation, CronTask, CronScheduler,
  CronTaskSnapshot, ManagerState,
}
use blue_tanuki.Schedule.Cron.{upsert_task, remove_task}
use blue_tanuki.Schedule.Manager.{
  ManagerSetting, to_cron_task, lifecycle_from_pending, on_lifecycle, persist, set_schedule,
  without_pending, prune_expired_pending, active_in,
}

-- What an approved operation answers; the constant fields are left out.
pub data Approved : Type 0 where
  deleted : (schedule_id : String) → Approved
  activated :
      (schedule_id : String)
      → ScheduleOperation
      → (payload_hash : String) → (next_fire_at_ms : Option ℕ) → Approved

abbrev pub deleted_schedule : RuntimeSchedule → ℕ → RuntimeSchedule
deleted_schedule s now = record s {
  enabled = false;
  status = ScheduleStatus.deleted;
  updated_at_ms = now;
}

abbrev pub activated_schedule : PendingOperation → ℕ → RuntimeSchedule
activated_schedule p now = record p.proposed {
  status = ScheduleStatus.active;
  enabled = true;
  updated_at_ms = now;
}

abbrev pub unscheduled : ManagerState → String → ManagerState
unscheduled st id = elim st.scheduler [
  | none ↦ st
  | some c ↦ record st { scheduler = some (remove_task c id).1 }
]

-- the scheduler after `upsertTask`, and when the task fires next
abbrev pub upserted :
    ManagerState
    → Result String CronTaskSnapshot × CronScheduler
    → Result String (Option ℕ) × ManagerState
upserted st (ok task, c) = (ok task.next_fire_at_ms, record st { scheduler = some c })
upserted st (thrown e, c) = (thrown e, record st { scheduler = some c })

abbrev pub done_event : ScheduleOperation → ScheduleLifecycleEvent
done_event ScheduleOperation.create = ScheduleLifecycleEvent.activated
done_event ScheduleOperation.update = ScheduleLifecycleEvent.updated
done_event ScheduleOperation.delete = ScheduleLifecycleEvent.deleted

-- once the file is written, or writing it has failed
abbrev pub completed :
    ManagerState
    → PendingOperation
    → Approved
    → Result String Unit
    → Result String Approved × ManagerState
completed st p answer (thrown e) = (thrown e, st)
completed st p answer (ok _) =
    (ok answer, on_lifecycle st (done_event p.operation) (lifecycle_from_pending p))

module _ (setting : ManagerSetting) where
  abbrev pub delete_schedule :
      ManagerState
      → PendingOperation
      → ℕ
      → Result String Unit
      → Result String Approved × ManagerState
  delete_schedule st p now disk = elim (active_in p.previous) [
    | none ↦ (
      thrown
          "schedule.delete target is no longer active; nothing was deleted; run tool:schedule.list and retry",
      st,
    )
    | some s ↦
        completed
          (persist setting.before (unscheduled (set_schedule st (deleted_schedule s now)) s.id)) p
          (Approved.deleted s.id) disk
  ]

  -- `this.scheduler?.upsertTask`
  abbrev pub upsert_in : ManagerState → CronTask → ℕ → Result String (Option ℕ) × ManagerState
  upsert_in st task now = elim st.scheduler [
    | none ↦ (ok none, st)
    | some c ↦ upserted st (upsert_task setting.digest setting.local c task now)
  ]

  abbrev pub activation_persisted :
      PendingOperation
      → RuntimeSchedule
      → Result String Unit
      → Result String (Option ℕ) × ManagerState
      → Result String Approved × ManagerState
  activation_persisted p s disk (thrown e, st) = (thrown e, st)
  activation_persisted p s disk (ok next_fire, st) =
      completed (persist setting.before st) p
        (Approved.activated s.id p.operation s.payload_hash next_fire) disk

  abbrev pub activate_schedule :
      ManagerState
      → PendingOperation
      → ℕ
      → Result String Unit
      → Result String Approved × ManagerState
  activate_schedule st p now disk =
      let s = activated_schedule p now in
      activation_persisted p s disk (upsert_in (set_schedule st s) (to_cron_task s) now)

  abbrev pub approve_found :
      ManagerState
      → String
      → PendingOperation
      → ℕ
      → Result String Unit
      → Result String Approved × ManagerState
  approve_found st command_id p now disk =
      let approved =
        on_lifecycle (without_pending st command_id p) ScheduleLifecycleEvent.approved
          (lifecycle_from_pending p) in
      elim p.operation [
        | ScheduleOperation.delete ↦ delete_schedule approved p now disk
        | _ ↦ activate_schedule approved p now disk
      ]

  -- `disk` is what writing the file gives.
  unfoldable pub approve_pending :
      ManagerState → String → ℕ → Result String Unit → Result String Approved × ManagerState
  approve_pending st command_id now disk =
      let live = prune_expired_pending setting st "system" now in
      elim (get live.pending command_id) [
        | none ↦ (
          thrown
              "schedule approval missing or expired; nothing was activated; submit the schedule request again and approve the new command_id",
          live,
        )
        | some p ↦ approve_found live command_id p now disk
      ]

abbrev pub with_schedules : ManagerState → List RuntimeSchedule → ManagerState
with_schedules st [] = st
with_schedules st (s ∷ ss) = with_schedules (set_schedule st s) ss

-- a new manager, of the schedules that the file holds
abbrev pub open_manager : List RuntimeSchedule → ManagerState
open_manager = with_schedules (record {
  schedules = [];
  pending = [];
  pending_by_schedule = [];
  scheduler = none;
  writes = [];
  events = [];
})
