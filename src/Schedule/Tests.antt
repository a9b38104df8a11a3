-- ===== src/Schedule/Tests.antt =====
-- A manager with an empty file, a request for one schedule and its approval; and a daily task that fires.
use blue_tanuki.Base.{◌+◌, ◌*◌, ◌≡◌, ◌⊎◌, refl, true, false, none, some, [], ◌∷◌, leb, ok, thrown}
use blue_tanuki.Base.Dict.{get, put, remove}
use blue_tanuki.Base.Trim.{trim, is_space}
use blue_tanuki.Base.Json.{Json}
use blue_tanuki.Protocol.{Decision, CommandType, Body, ExecuteCommand}
use blue_tanuki.Approval.Types.{ApprovalEvaluation, Verdict, Mode, Risk, Level, Operation, Scope}
use blue_tanuki.Process.Types.{InboundRequest, ActorKind, TrustLevel, ProcessKind}
use blue_tanuki.Process.Actor.{resolve_actor}
use blue_tanuki.Process.Definition.{resolve_process}
use blue_tanuki.Controller.Prepare.{valid, authority_request}
use blue_tanuki.Controller.Tests.{setting, fresh}
use blue_tanuki.Schedule.Types.{
  ScheduleStatus, PendingOperation, ManagerState, TaskName, TaskOrigin, CronRuntime,
}
use blue_tanuki.Schedule.Args.{
  time_parts, is_id, is_id_tail, string_arg, optional_time, optional_interval, required_id,
  build_schedule_from_args,
}
use blue_tanuki.Schedule.Cron.{LocalClock, delay_until_local_time, parse_local_time}
use blue_tanuki.Schedule.Manager.{ManagerSetting, reject_expired}
use blue_tanuki.Schedule.Prepare.{prepare_pending, build_pending}
use blue_tanuki.Schedule.Approve.{approve_pending, open_manager}
use blue_tanuki.Schedule.Invariant.{Kept}
use blue_tanuki.Schedule.Activation.{Activates, approve_pending-Activates}
use blue_tanuki.Schedule.Reachable.{
  prepare, approve, Reachable, opened, later, IsWellKept, Reachable-IsWellKept,
}
use blue_tanuki.Schedule.Fire.{no_provider, resolve_content, fire}
use blue_tanuki.Schedule.Authority.{message_of}
use blue_tanuki.Schedule.Decided.{AnswersCron, decide-fire}
use blue_tanuki.Controller.Machine.{decide}

abbrev clock : LocalClock
clock = record { set_hours = λ now c. c.0 * 3600000 + c.1 * 60000; next_day = λ t. t + 86400000 }

abbrev plain : ManagerSetting
plain = record {
  digest = λ channel target content time interval_ms. content;
  local = clock;
  before = λ a b. true;
  approval_timeout_ms = 100;
}

abbrev asking : ExecuteCommand
asking = record {
  id = "c1";
  body = Body.tool_call (record {
    tool_name = "schedule.create";
    arguments =
        ("id", Json.str "s1")
        ∷ ("channel", Json.str "slack")
        ∷ ("target", Json.str "#t")
        ∷ ("content", Json.str "hi")
        ∷ ("time", Json.str "7:30")
        ∷ [];
  });
  constraints = none;
  upstream_decision = record {
    frame_goal = "g";
    model_abstraction = "m";
    commit_hash = "h";
    commit_decision = Decision.assert;
  };
}

abbrev evaluation : ApprovalEvaluation
evaluation = record {
  decision = Verdict.ask;
  mode = Mode.full_access;
  risk = Risk.high;
  approval_level = Level.final_review;
  reason = "final review";
  matched_grant_id = none;
  final_review_required = true;
  context = record {
    operation = Operation.schedule_create;
    target_scope = Scope.global;
    target = none;
    path_pattern = none;
    channel = none;
    risk = Risk.high;
    actor = "u";
    capabilities = [];
    command_type = CommandType.tool_call;
    command_id = "c1";
    upstream_commit_hash = "h";
    created_at = 0;
  };
  authority_trace = record {
    full_access_default = true;
    final_review_boundary = [];
    operation = Operation.schedule_create;
    target_scope = Scope.global;
    risk = Risk.high;
    approval_level = Level.final_review;
    actor = "u";
    final_review_required = true;
    matched_grant_id = none;
    reason = "final review";
  };
}

abbrev requested : ManagerState
requested = (prepare_pending plain (open_manager []) asking evaluation none none 0 "01234567").1

reached : Reachable plain [] requested
unfolding get
reached = later opened (prepare asking evaluation none none 0 "01234567" refl)

-- After the approval the schedule is active.
approved_status :
    get (approve_pending plain requested "c1" 5 (ok tt)).1.schedules "s1"
    ≡ some (record {
      id = "s1";
      enabled = true;
      channel = "slack";
      target = "#t";
      content = "hi";
      time = some "7:30";
      interval_ms = none;
      created_at_ms = 0;
      updated_at_ms = 5;
      payload_hash = "hi";
      status = ScheduleStatus.active;
    })
unfolding approve_pending prepare_pending reject_expired build_pending build_schedule_from_args
    required_id is_id is_id_tail string_arg optional_time optional_interval time_parts get put
    remove trim
approved_status = refl

approve_pending-Activates_example :
    let r = approve_pending plain requested "c1" 5 (ok tt) in
    ((r.0
        ≡ thrown
            "schedule approval missing or expired; nothing was activated; submit the schedule request again and approve the new command_id")
      × Kept requested r.1)
    ⊎ ((p : PendingOperation) × (get requested.pending "c1" ≡ some p)
        × (leb p.expires_at_ms 5 ≡ false)
        × Activates plain requested "c1" p 5 r.1)
approve_pending-Activates_example =
    approve_pending-Activates plain requested "c1" 5 (ok tt)
      (Reachable-IsWellKept plain [] requested reached).0

Reachable-IsWellKept_example :
    IsWellKept plain [] (approve_pending plain requested "c1" 5 (ok tt)).1
Reachable-IsWellKept_example =
    Reachable-IsWellKept plain [] (approve_pending plain requested "c1" 5 (ok tt)).1
      (later reached (approve "c1" 5 (ok tt)))

-- At 06:00 a task of 07:30 fires in an hour and a half, and at 08:00 on the next day.
delays :
    (delay_until_local_time clock "7:30" 21600000 ≡ ok 5400000)
    × (delay_until_local_time clock "7:30" 28800000 ≡ ok 84600000)
unfolding delay_until_local_time parse_local_time time_parts
delays = (refl, refl)

abbrev daily : CronRuntime
daily = record {
  task = record {
    id = "s1";
    name = TaskName.scheduled_message;
    origin = TaskOrigin.runtime;
    enabled = true;
    channel = "slack";
    target = "#t";
    content = "hi";
    time = "7:30";
    interval_ms = none;
    payload_hash = "hi";
  };
  running = true;
  next_fire_at_ms = some 5;
  last_fire_at_ms = none;
}

abbrev fired : InboundRequest
fired = (fire plain.digest (λ s. s) daily no_provider "q1" 5).0

decide-fire_example :
    ((resolve_actor (authority_request setting fired)).actor_kind ≡ ActorKind.cron)
    × ((resolve_actor (authority_request setting fired)).trust_level ≡ TrustLevel.trusted)
    × ((resolve_process
          (authority_request setting fired)
          (resolve_actor (authority_request setting fired))).process_kind
        ≡ ProcessKind.cron)
    × AnswersCron setting fired
        (message_of daily.task "hi")
        (decide setting fresh (valid fired) "c2" 6)
unfolding resolve_content trim is_space get
decide-fire_example =
    decide-fire setting fresh plain.digest (λ s. s) daily no_provider "q1" "c2" 5 6
      (refl, (refl, (refl, (refl, (refl, (refl, (refl, tt))))))) refl refl refl
