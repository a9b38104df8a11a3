-- ===== src/Schedule/Effects.antt =====
-- apps/gateway/src/runtime_schedule.ts: what an approval leaves in the maps and in the list of events.
use mathlib.Core.Path.{subst}
use mathlib.Core.List.Memᴰ
use blue_tanuki.Base.{
  ℕ, String, ◌≡◌, refl, sym, ap, ◌∙◌, inl, inr, true, false, Option, none, some, Option-cases,
  if◌then◌else◌, Result, ok, thrown,
}
use blue_tanuki.Base.Dict.{get}
use blue_tanuki.Controller.Types.{ScheduleLifecycleEvent}
use blue_tanuki.Schedule.Types.{
  RuntimeSchedule, ScheduleOperation, PendingOperation, CronTask, CronTaskSnapshot, CronScheduler,
  ManagerState,
}
use blue_tanuki.Schedule.Manager.{
  ManagerSetting, is_active, is_delete, active_in, to_cron_task, lifecycle_from_pending,
  on_lifecycle, set_schedule, without_pending, persist,
}
use blue_tanuki.Schedule.Cron.{upsert_task}
use blue_tanuki.Schedule.Approve.{
  upserted, Approved, deleted_schedule, activated_schedule, unscheduled, completed, delete_schedule,
  upsert_in, activation_persisted, activate_schedule, approve_found,
}
use blue_tanuki.Schedule.Consistent.{Fits, IsKeyed}
use blue_tanuki.Schedule.Invariant.{Grows}

-- The maps of one state are those of another, and no event is missing.
abbrev SameMaps : ManagerState → ManagerState → Type 0
SameMaps st next =
    (next.pending ≡ st.pending)
    × (next.pending_by_schedule ≡ st.pending_by_schedule)
    × (next.schedules ≡ st.schedules)
    × Grows st next

completed-SameMaps :
    (st : ManagerState) (p : PendingOperation) (a : Approved) (disk : Result String Unit)
    → SameMaps st (completed st p a disk).1
completed-SameMaps st p a (ok _) = (refl, refl, refl, (λ e m. Memᴰ.append_left _ m))
completed-SameMaps st p a (thrown e) = (refl, refl, refl, (λ e m. m))

unscheduled-SameMaps : (st : ManagerState) (id : String) → SameMaps st (unscheduled st id)
unscheduled-SameMaps st id = elim (Option-cases st.scheduler) [
  | inl without ↦ rw without (refl, refl, refl, (λ e m. m))
  | inr (c, attached) ↦ rw attached (refl, refl, refl, (λ e m. m))
]

upserted-SameMaps :
    (st : ManagerState) (r : Result String CronTaskSnapshot × CronScheduler)
    → SameMaps st (upserted st r).1
upserted-SameMaps st (ok task, c) = (refl, refl, refl, (λ e m. m))
upserted-SameMaps st (thrown e, c) = (refl, refl, refl, (λ e m. m))

-- The schedule that an approved operation leaves under its id.
abbrev pub result_of : PendingOperation → ℕ → RuntimeSchedule
result_of p now = elim p.operation [
  | ScheduleOperation.delete ↦ elim p.previous [
    | none ↦ p.proposed
    | some s ↦ deleted_schedule s now
  ]
  | _ ↦ activated_schedule p now
]

abbrev pub approved_state : ManagerState → String → PendingOperation → ManagerState
approved_state st c p =
    on_lifecycle (without_pending st c p) ScheduleLifecycleEvent.approved (lifecycle_from_pending p)

module _ (setting : ManagerSetting) where
  upsert_in-SameMaps :
      (st : ManagerState) (task : CronTask) (now : ℕ)
      → SameMaps st (upsert_in setting st task now).1
  upsert_in-SameMaps st task now = elim (Option-cases st.scheduler) [
    | inl without ↦ rw without (refl, refl, refl, (λ e m. m))
    | inr (c, attached) ↦
        rw attached (upserted-SameMaps st (upsert_task setting.digest setting.local c task now))
  ]

  activation_persisted-SameMaps :
      (p : PendingOperation) (s : RuntimeSchedule) (disk : Result String Unit)
      (r : Result String (Option ℕ) × ManagerState)
      → SameMaps r.1 (activation_persisted setting p s disk r).1
  activation_persisted-SameMaps p s disk (thrown e, st) = (refl, refl, refl, (λ e m. m))
  activation_persisted-SameMaps p s disk (ok n, st) =
      completed-SameMaps (persist setting.before st) p
        (Approved.activated s.id p.operation s.payload_hash n) disk

  SameMaps-trans : (a b c : ManagerState) → SameMaps a b → SameMaps b c → SameMaps a c
  SameMaps-trans a b c (p, q, r, more) (p1, q1, r1, more1) =
      (p1 ∙ p, q1 ∙ q, r1 ∙ r, (λ e m. more1 e (more e m)))

  activate-SameMaps :
      (st : ManagerState) (p : PendingOperation) (now : ℕ) (disk : Result String Unit)
      → SameMaps
          (set_schedule st (activated_schedule p now))
          (activate_schedule setting st p now disk).1
  activate-SameMaps st p now disk =
      let s = activated_schedule p now in
      let r = upsert_in setting (set_schedule st s) (to_cron_task s) now in
      SameMaps-trans (set_schedule st s) r.1 (activate_schedule setting st p now disk).1
        (upsert_in-SameMaps (set_schedule st s) (to_cron_task s) now)
        (activation_persisted-SameMaps p s disk r)

  delete-SameMaps :
      (st : ManagerState) (p : PendingOperation) (now : ℕ) (disk : Result String Unit)
      (s : RuntimeSchedule)
      → active_in p.previous ≡ some s
      → SameMaps
          (set_schedule st (deleted_schedule s now))
          (delete_schedule setting st p now disk).1
  delete-SameMaps st p now disk s e =
      let listed = unscheduled (set_schedule st (deleted_schedule s now)) s.id in
      rw (e, delete_schedule)
        (SameMaps-trans (set_schedule st (deleted_schedule s now)) listed
          (completed (persist setting.before listed) p (Approved.deleted s.id) disk).1
          (unscheduled-SameMaps (set_schedule st (deleted_schedule s now)) s.id)
          (completed-SameMaps (persist setting.before listed) p (Approved.deleted s.id) disk))

  deletes :
      (st : ManagerState) (c : String) (p : PendingOperation) (now : ℕ) (disk : Result String Unit)
      → p.operation ≡ ScheduleOperation.delete
      → approve_found setting st c p now disk
        ≡ delete_schedule setting (approved_state st c p) p now disk
  deletes st c p now disk e = rw e refl

  activates :
      (st : ManagerState) (c : String) (p : PendingOperation) (now : ℕ) (disk : Result String Unit)
      (op : ScheduleOperation)
      → p.operation ≡ op
      → is_delete op ≡ false
      → (approve_found setting st c p now disk
          ≡ activate_schedule setting (approved_state st c p) p now disk)
        × (result_of p now ≡ activated_schedule p now)
  activates st c p now disk ScheduleOperation.create e other = rw e (refl, refl)
  activates st c p now disk ScheduleOperation.update e other = rw e (refl, refl)
  activates st c p now disk ScheduleOperation.delete e other = cc

  result_of-delete :
      (p : PendingOperation) (now : ℕ) (s : RuntimeSchedule)
      → p.operation ≡ ScheduleOperation.delete
      → p.previous ≡ some s
      → result_of p now ≡ deleted_schedule s now
  result_of-delete p now s e before = rw (e, before) refl

  -- What an approval of a waiting operation lists under the id of its schedule.
  abbrev Resulting : ManagerState → String → PendingOperation → ℕ → Result String Unit → Type 0
  Resulting st c p now disk =
      SameMaps (set_schedule (approved_state st c p) (result_of p now))
        (approve_found setting st c p now disk).1
      × ((result_of p now).id ≡ p.schedule_id)
      × (active_in (some (result_of p now))
          ≡ (if is_delete p.operation then none else some (activated_schedule p now)))

  approve_found-activated :
      (st : ManagerState) (c : String) (p : PendingOperation) (now : ℕ) (disk : Result String Unit)
      → is_delete p.operation ≡ false
      → p.proposed.id ≡ p.schedule_id
      → Resulting st c p now disk
  approve_found-activated st c p now disk other same =
      let (runs, gives) = activates st c p now disk p.operation refl other in
      (
        subst
            (λ s.
              SameMaps (set_schedule (approved_state st c p) s)
                (approve_found setting st c p now disk).1)
            (sym gives)
            (subst
              (λ r. SameMaps (set_schedule (approved_state st c p) (activated_schedule p now)) r.1)
              (sym runs) (activate-SameMaps (approved_state st c p) p now disk)),
        ap (λ s. s.id) gives ∙ same,
        ap (λ s. active_in (some s)) gives
            ∙ ap (λ b. if b then none else some (activated_schedule p now)) (sym other),
      )

  approve_found-deleted :
      (st : ManagerState) (c : String) (p : PendingOperation) (now : ℕ) (disk : Result String Unit)
      (s : RuntimeSchedule)
      → p.operation ≡ ScheduleOperation.delete
      → p.previous ≡ some s
      → is_active s ≡ true
      → s.id ≡ p.schedule_id
      → Resulting st c p now disk
  approve_found-deleted st c p now disk s e before holds same =
      let runs = deletes st c p now disk e in
      let gives = result_of-delete p now s e before in
      (
        subst
            (λ x.
              SameMaps (set_schedule (approved_state st c p) x)
                (approve_found setting st c p now disk).1)
            (sym gives)
            (subst
              (λ r. SameMaps (set_schedule (approved_state st c p) (deleted_schedule s now)) r.1)
              (sym runs)
              (delete-SameMaps (approved_state st c p) p now disk s
                (ap active_in before ∙ ap (λ b. if b then some s else none) holds))),
        ap (λ x. x.id) gives ∙ same,
        ap (λ x. active_in (some x)) gives
            ∙ ap (λ op. if is_delete op then none else some (activated_schedule p now)) (sym e),
      )

  pub approve_found-Resulting :
      (st : ManagerState) (c : String) (p : PendingOperation) (now : ℕ) (disk : Result String Unit)
      (op : ScheduleOperation)
      → p.operation ≡ op
      → Fits (get st.schedules p.schedule_id) p
      → IsKeyed (get st.schedules)
      → p.proposed.id ≡ p.schedule_id
      → Resulting st c p now disk
  approve_found-Resulting st c p now disk ScheduleOperation.create e fits keyed same =
      approve_found-activated st c p now disk (ap is_delete e) same
  approve_found-Resulting st c p now disk ScheduleOperation.update e fits keyed same =
      approve_found-activated st c p now disk (ap is_delete e) same
  approve_found-Resulting st c p now disk ScheduleOperation.delete e fits keyed same =
      let (s, before, listed, holds) = rw e at fits in
      approve_found-deleted st c p now disk s e before holds (keyed p.schedule_id s listed)
