-- ===== src/Schedule/Cron.antt =====
-- apps/gateway/src/cron_channel.ts: the tasks of the scheduler and when they fire next. `now` is the clock; a
-- `LocalClock` is what Date does in local time. The handler is set exactly while the scheduler is started.
use blue_tanuki.Base.{
  ℕ, suc, ◌+◌, ◌-◌, String, ◌==◌, Bool, true, false, not, ◌&&◌, Option, none, some, List, [], ◌∷◌,
  ◌++◌, map, ltb, leb, or_else, if◌then◌else◌, Result, ok, thrown, ◌>>=◌,
}
use blue_tanuki.Base.Text.{◌<>◌, show, includes}
use blue_tanuki.Base.Trim.{trim}
use blue_tanuki.Base.Dict.{get, put, remove}
use blue_tanuki.Schedule.Types.{
  TaskName, TaskOrigin, CronTask, NormalizedTask, CronRuntime, CronScheduler, CronTaskSnapshot,
}
use blue_tanuki.Schedule.Args.{is_id, time_parts, is_clock, cron_payload_hash}

-- `setHours` of an hour and a minute on the day of a time, and the same time on the next day.
pub record LocalClock : Type 0 where
  pub set_hours : ℕ → ℕ × ℕ → ℕ
  pub next_day : ℕ → ℕ

abbrev pub in_range : String → Option (ℕ × ℕ) → Result String (ℕ × ℕ)
in_range text none = thrown ("invalid scheduled time: " <> text)
in_range text (some clock) =
    if is_clock (some clock) then ok clock else thrown ("invalid scheduled time: " <> text)

unfoldable pub parse_local_time : String → Result String (ℕ × ℕ)
parse_local_time text = in_range text (time_parts text)

unfoldable pub require_trimmed : String → String → Result String String
require_trimmed value label =
    if trim value == "" then thrown (label <> " must be non-empty") else ok (trim value)

abbrev pub checked_id : List String → String → Result String String
checked_id seen id =
    if not (is_id id)
    then thrown ("cron task id '" <> id <> "' must match /^[A-Za-z0-9][A-Za-z0-9_.:-]{0,63}$/")
    else if includes seen id
    then thrown ("duplicate cron task id: " <> id)
    else ok id

abbrev pub create_runtime : NormalizedTask → CronRuntime
create_runtime task = record {
  task = task;
  running = false;
  next_fire_at_ms = none;
  last_fire_at_ms = none;
}

abbrev pub stop_runtime : CronRuntime → CronRuntime
stop_runtime r = record r { running = false; next_fire_at_ms = none }

unfoldable pub snapshot_for_runtime : CronRuntime → CronTaskSnapshot
snapshot_for_runtime r = record {
  id = r.task.id;
  name = r.task.name;
  origin = r.task.origin;
  enabled = r.task.enabled;
  running = r.running;
  channel = r.task.channel;
  target = r.task.target;
  time = r.task.time;
  interval_ms = r.task.interval_ms;
  payload_hash = r.task.payload_hash;
  next_fire_at_ms = r.next_fire_at_ms;
  last_fire_at_ms = r.last_fire_at_ms;
}

module _ (digest : String → String → String → String → Option ℕ → String) where
  abbrev pub task_hash : CronTask → String
  task_hash task =
      or_else task.payload_hash
        (cron_payload_hash digest task.channel task.target task.content task.time task.interval_ms)

  -- one task, after those with the ids `seen`
  unfoldable pub normalize_cron_task : List String → ℕ → CronTask → Result String NormalizedTask
  normalize_cron_task seen index task =
      require_trimmed task.id ("cron task " <> show index <> " id") >>= λ trimmed.
      checked_id seen trimmed >>= λ id.
      let time = or_else task.time "07:00" in
      parse_local_time time >>= λ _.
      require_trimmed task.channel ("cron task " <> id <> " channel") >>= λ channel.
      require_trimmed task.target ("cron task " <> id <> " target") >>= λ target.
      require_trimmed task.content ("cron task " <> id <> " content") >>= λ content. ok (record {
        id = id;
        name = or_else task.name TaskName.scheduled_message;
        origin = or_else task.origin TaskOrigin.boot;
        enabled = or_else task.enabled true;
        channel = channel;
        target = target;
        content = content;
        time = time;
        interval_ms = task.interval_ms;
        payload_hash = task_hash task;
      })

  unfoldable pub normalize_cron_tasks :
      List String → ℕ → List CronTask → Result String (List NormalizedTask)
  normalize_cron_tasks seen index [] = ok []
  normalize_cron_tasks seen index (task ∷ tasks) = normalize_cron_task seen index task >>= λ t.
      normalize_cron_tasks (seen ++ t.id ∷ []) (suc index) tasks >>= λ rest. ok (t ∷ rest)

  abbrev pub with_runtimes : CronScheduler → List NormalizedTask → CronScheduler
  with_runtimes c [] = c
  with_runtimes c (t ∷ ts) =
      with_runtimes (record c { runtimes = put c.runtimes t.id (create_runtime t) }) ts

  unfoldable pub open_scheduler : List CronTask → Result String CronScheduler
  open_scheduler tasks = normalize_cron_tasks [] 0 tasks >>= λ ts.
      ok (with_runtimes (record { started = false; runtimes = [] }) ts)

-- `delayUntilLocalTime`
abbrev pub until : ℕ → ℕ → ℕ → ℕ
until now next later = if leb next now then later - now else next - now

unfoldable pub delay_until_local_time : LocalClock → String → ℕ → Result String ℕ
delay_until_local_time local time now = parse_local_time time >>= λ clock.
    let next = local.set_hours now clock in ok (until now next (local.next_day next))

unfoldable pub schedule_next_daily : LocalClock → CronRuntime → ℕ → Result String CronRuntime
schedule_next_daily local r now = delay_until_local_time local r.task.time now >>= λ delay.
    ok (record r { next_fire_at_ms = some (now + delay) })

unfoldable pub schedule_task : LocalClock → CronRuntime → ℕ → Result String CronRuntime
schedule_task local r now = elim r.task.interval_ms [
  | none ↦ schedule_next_daily local (record r { running = true }) now
  | some interval_ms ↦
      if ltb 0 interval_ms
      then ok (record r { running = true; next_fire_at_ms = some (now + interval_ms) })
      else schedule_next_daily local (record r { running = true }) now
]

abbrev pub put_runtime : CronScheduler → CronRuntime → CronScheduler
put_runtime c r = record c { runtimes = put c.runtimes r.task.id r }

-- what `upsertTask` gives once the runtime is scheduled, or scheduling has thrown
abbrev pub scheduled :
    CronScheduler
    → CronRuntime
    → Result String CronRuntime
    → Result String CronTaskSnapshot × CronScheduler
scheduled c r (thrown e) = (thrown e, put_runtime c (record r { running = true }))
scheduled c r (ok s) = (ok (snapshot_for_runtime s), put_runtime c s)

abbrev pub place_task :
    LocalClock
    → CronScheduler
    → ℕ
    → Result String NormalizedTask
    → Result String CronTaskSnapshot × CronScheduler
place_task local c now (thrown e) = (thrown e, c)
place_task local c now (ok task) =
    let r = create_runtime task in
    if c.started && task.enabled
    then scheduled c r (schedule_task local r now)
    else (ok (snapshot_for_runtime r), put_runtime c r)

-- An earlier runtime of the same id is stopped and replaced.
unfoldable pub upsert_task :
    (String → String → String → String → Option ℕ → String)
    → LocalClock
    → CronScheduler
    → CronTask
    → ℕ
    → Result String CronTaskSnapshot × CronScheduler
upsert_task digest local c task now = place_task local c now (normalize_cron_task digest [] 0 task)

unfoldable pub remove_task : CronScheduler → String → Bool × CronScheduler
remove_task c id = elim (get c.runtimes id) [
  | none ↦ (false, c)
  | some _ ↦ (true, record c { runtimes = remove c.runtimes id })
]

-- every runtime that is enabled, in turn
unfoldable pub start_all :
    LocalClock → List (String × CronRuntime) → ℕ → Result String Unit × List (String × CronRuntime)
start_all local [] now = (ok tt, [])
start_all local ((id, r) ∷ rs) now =
    let rest = start_all local rs now in
    if not r.task.enabled then (rest.0, (id, r) ∷ rest.1) else elim (schedule_task local r now) [
      | ok s ↦ (rest.0, (id, s) ∷ rest.1)
      | thrown e ↦ (thrown e, (id, record r { running = true }) ∷ rs)
    ]

unfoldable pub start : LocalClock → CronScheduler → ℕ → Result String Unit × CronScheduler
start local c now =
    let r = start_all local c.runtimes now in
    if c.started then (ok tt, c) else (r.0, record { started = true; runtimes = r.1 })

abbrev pub stop : CronScheduler → CronScheduler
stop c = record { started = false; runtimes = map (λ e. (e.0, stop_runtime e.1)) c.runtimes }

unfoldable pub cron_snapshot : CronScheduler → List CronTaskSnapshot
cron_snapshot c = map (λ e. snapshot_for_runtime e.1) c.runtimes
