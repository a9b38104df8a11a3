-- ===== src/Schedule/Types.antt =====
-- apps/gateway/src/runtime_schedule.ts and cron_channel.ts: the schedules, the operations that wait for approval,
-- the tasks of the scheduler, and what the manager keeps.
use blue_tanuki.Base.{ℕ, String, Bool, Option, List}
use blue_tanuki.Base.Dict.{Dict}
use blue_tanuki.Approval.Types.{Level, Risk}
use blue_tanuki.Controller.Types.{ScheduleLifecycleEvent}

pub data ScheduleStatus : Type 0 where
  pending active disabled deleted rejected : ScheduleStatus

-- `origin` is the literal "runtime".
pub record RuntimeSchedule : Type 0 where
  pub id : String
  pub enabled : Bool
  pub channel : String
  pub target : String
  pub content : String
  pub time : Option String
  pub interval_ms : Option ℕ
  pub created_at_ms : ℕ
  pub updated_at_ms : ℕ
  pub payload_hash : String
  pub status : ScheduleStatus

pub data ScheduleOperation : Type 0 where
  create update delete : ScheduleOperation

pub record PendingOperation : Type 0 where
  pub command_id : String
  pub request_id : Option String
  pub actor : String
  pub operation : ScheduleOperation
  pub schedule_id : String
  pub proposed : RuntimeSchedule
  pub previous : Option RuntimeSchedule
  pub approval_level : Level
  pub risk : Risk
  pub expires_at_ms : ℕ

pub record ScheduleLifecycle : Type 0 where
  pub schedule_id : String
  pub operation : ScheduleOperation
  pub actor : String
  pub approval_level : Level
  pub risk : Risk
  pub payload_hash : String
  pub previous_payload_hash : Option String
  pub command_id : String
  pub request_id : Option String

pub data TaskName : Type 0 where
  daily_brief scheduled_message : TaskName

pub data TaskOrigin : Type 0 where
  boot runtime : TaskOrigin

pub record CronTask : Type 0 where
  pub id : String
  pub name : Option TaskName
  pub origin : Option TaskOrigin
  pub enabled : Option Bool
  pub channel : String
  pub target : String
  pub content : String
  pub time : Option String
  pub interval_ms : Option ℕ
  pub payload_hash : Option String

pub record NormalizedTask : Type 0 where
  pub id : String
  pub name : TaskName
  pub origin : TaskOrigin
  pub enabled : Bool
  pub channel : String
  pub target : String
  pub content : String
  pub time : String
  pub interval_ms : Option ℕ
  pub payload_hash : String

-- A timer is set exactly while it runs.
pub record CronRuntime : Type 0 where
  pub task : NormalizedTask
  pub running : Bool
  pub next_fire_at_ms : Option ℕ
  pub last_fire_at_ms : Option ℕ

pub record CronScheduler : Type 0 where
  pub started : Bool
  pub runtimes : Dict CronRuntime

pub record CronTaskSnapshot : Type 0 where
  pub id : String
  pub name : TaskName
  pub origin : TaskOrigin
  pub enabled : Bool
  pub running : Bool
  pub channel : String
  pub target : String
  pub time : String
  pub interval_ms : Option ℕ
  pub payload_hash : String
  pub next_fire_at_ms : Option ℕ
  pub last_fire_at_ms : Option ℕ

-- The fields of RuntimeScheduleManager that change, the contents that the file is asked to hold, and the calls
-- of `onLifecycle`.
pub record ManagerState : Type 0 where
  pub schedules : Dict RuntimeSchedule
  pub pending : Dict PendingOperation
  pub pending_by_schedule : Dict String
  pub scheduler : Option CronScheduler
  pub writes : List (List RuntimeSchedule)
  pub events : List (ScheduleLifecycleEvent × ScheduleLifecycle)

pub record RuntimeScheduleSnapshot : Type 0 where
  pub id : String
  pub enabled : Bool
  pub channel : String
  pub target : String
  pub time : String
  pub interval_ms : Option ℕ
  pub created_at_ms : ℕ
  pub updated_at_ms : ℕ
  pub payload_hash : String
  pub status : ScheduleStatus
  pub pending_operation : Option ScheduleOperation
  pub pending_command_id : Option String
  pub approval_expires_at_ms : Option ℕ
