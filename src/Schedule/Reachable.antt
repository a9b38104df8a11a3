-- ===== src/Schedule/Reachable.antt =====
-- apps/gateway/src/runtime_schedule.ts: the states of a manager, from the file on, and that every schedule that is
-- active has been approved.
use mathlib.Core.Path.{subst}
use mathlib.Core.Option.{some-injective}
use mathlib.Core.List.{Memᴰ}
use blue_tanuki.Base.{
  ℕ, String, ◌==◌, ◌≡◌, ◌⊎◌, refl, sym, ap, ◌∙◌, inl, inr, Bool, true, false, Option, none, some,
  List, [], ◌∷◌, eq_iff, if◌then◌else◌, Result,
}
use blue_tanuki.Base.Dict.{get}
use blue_tanuki.Protocol.{ExecuteCommand}
use blue_tanuki.Approval.Types.{ApprovalEvaluation}
use blue_tanuki.Controller.Types.{ScheduleLifecycleEvent}
use blue_tanuki.Schedule.Types.{
  RuntimeSchedule, PendingOperation, ScheduleLifecycle, CronScheduler, ManagerState,
}
use blue_tanuki.Schedule.Manager.{
  ManagerSetting, is_delete, lifecycle_from_pending, set_schedule, reject_pending,
}
use blue_tanuki.Schedule.Prepare.{prepare_pending}
use blue_tanuki.Schedule.Approve.{with_schedules, activated_schedule, approve_pending, open_manager}
use blue_tanuki.Schedule.Listing.{attach_scheduler, list_schedules}
use blue_tanuki.Schedule.Consistent.{IsKeyed}
use blue_tanuki.Schedule.Invariant.{IsConsistent, active, Grows, put_schedule-IsKeyed}
use blue_tanuki.Schedule.Rejection.{reject_pending-Kept, prune_expired_pending-Kept}
use blue_tanuki.Schedule.Proposal.{IsHashed, IsHashedPending}
use blue_tanuki.Schedule.Activation.{Activates, approve_pending-Activates}
use blue_tanuki.Schedule.Request.{Requested, Kept-Requested, prepare_pending-Requested}

-- The two sides of what an approval leaves under an id.
chosen :
    (here deletes : Bool) (x : RuntimeSchedule) (o : Option RuntimeSchedule) (s : RuntimeSchedule)
    → (if here then if deletes then none else some x else o) ≡ some s
    → ((here ≡ false) × (o ≡ some s)) ⊎ ((here ≡ true) × (deletes ≡ false) × (x ≡ s))
chosen false deletes x o s h = inl (refl, h)
chosen true true x o s h = cc
chosen true false x o s h = inr (refl, refl, some-injective x s h)

with_schedules-IsKeyed :
    (st : ManagerState) (ss : List RuntimeSchedule)
    → IsKeyed (get st.schedules)
    → IsKeyed (get (with_schedules st ss).schedules)
with_schedules-IsKeyed st [] h = h
with_schedules-IsKeyed st (s ∷ ss) h =
    with_schedules-IsKeyed (set_schedule st s) ss (put_schedule-IsKeyed st.schedules s h)

with_schedules-pending :
    (st : ManagerState) (ss : List RuntimeSchedule)
    → ((with_schedules st ss).pending ≡ st.pending)
      × ((with_schedules st ss).pending_by_schedule ≡ st.pending_by_schedule)
with_schedules-pending st [] = (refl, refl)
with_schedules-pending st (s ∷ ss) = with_schedules-pending (set_schedule st s) ss

open_manager-IsConsistent : (ss : List RuntimeSchedule) → IsConsistent (open_manager ss)
unfolding get
open_manager-IsConsistent ss =
    let (none_pending, none_waits) = with_schedules-pending (open_manager []) ss in
    (
      (λ c p held. cc (rw none_pending at held)),
      (λ id c held. cc (rw none_waits at held)),
      with_schedules-IsKeyed (open_manager []) ss (λ id s e. cc),
    )

module _ (setting : ManagerSetting) where
  -- One call: a request of a command that is not pending, a rejection, an approval, a listing, or the
  -- scheduler that is attached.
  pub data Step : ManagerState → ManagerState → Type 0 where
    prepare :
        {st : ManagerState} (cmd : ExecuteCommand) (evaluation : ApprovalEvaluation)
        (request_id actor : Option String) (now : ℕ) (uuid8 : String)
        → get st.pending cmd.id ≡ none
        → Step st (prepare_pending setting st cmd evaluation request_id actor now uuid8).1
    reject :
        {st : ManagerState} (command_id actor : String) (now : ℕ)
        → Step st (reject_pending setting st command_id actor now).1
    approve :
        {st : ManagerState} (command_id : String) (now : ℕ) (disk : Result String Unit)
        → Step st (approve_pending setting st command_id now disk).1
    list : {st : ManagerState} (now : ℕ) → Step st (list_schedules setting st now).1
    attach : {st : ManagerState} (c : CronScheduler) → Step st (attach_scheduler st c)

  -- The states of a manager whose file held `ss`.
  pub data Reachable (ss : List RuntimeSchedule) : ManagerState → Type 0 where
    opened : Reachable ss (open_manager ss)
    later : {a b : ManagerState} → Reachable ss a → Step a b → Reachable ss b

  -- An active schedule is one of the file's, or the owner was asked for it and approved it: the events
  -- record both under its hash, which is that of its channel, target, content and times.
  abbrev pub IsBacked : List RuntimeSchedule → ManagerState → String → RuntimeSchedule → Type 0
  IsBacked ss st id s =
      (active (open_manager ss) id ≡ some s)
      ⊎ ((l : ScheduleLifecycle) × Memᴰ (ScheduleLifecycleEvent.requested, l) st.events
          × Memᴰ (ScheduleLifecycleEvent.approved, l) st.events
          × (l.schedule_id ≡ id)
          × (l.payload_hash ≡ s.payload_hash)
          × IsHashed setting.digest s)

  abbrev pub IsWellKept : List RuntimeSchedule → ManagerState → Type 0
  IsWellKept ss st =
      IsConsistent st
      × ((c : String) (p : PendingOperation)
          → get st.pending c ≡ some p
          → Memᴰ (ScheduleLifecycleEvent.requested, lifecycle_from_pending p) st.events
            × IsHashedPending setting p)
      × ((id : String) (s : RuntimeSchedule) → active st id ≡ some s → IsBacked ss st id s)

  IsBacked-later :
      (ss : List RuntimeSchedule) (a b : ManagerState) (id : String) (s : RuntimeSchedule)
      → Grows a b
      → IsBacked ss a id s
      → IsBacked ss b id s
  IsBacked-later ss a b id s more (inl file) = inl file
  IsBacked-later ss a b id s more (inr (l, asked, approved, named, hash, hashed)) =
      inr (l, more _ asked, more _ approved, named, hash, hashed)

  Requested-IsWellKept :
      (ss : List RuntimeSchedule) (a b : ManagerState)
      → IsWellKept ss a
      → Requested setting a b
      → IsWellKept ss b
  Requested-IsWellKept ss a b (_, pendings, actives) (h, same, one_more, more) = (
    h,
    (λ c p held. elim (one_more c p held) [
      | inl was ↦ let (asked, hashed) = pendings c p was in (more _ asked, hashed)
      | inr new ↦ new
    ]),
    (λ id s e. IsBacked-later ss a b id s more (actives id s (sym (same id) ∙ e))),
  )

  Activates-IsWellKept :
      (ss : List RuntimeSchedule) (a b : ManagerState) (c : String) (p : PendingOperation) (now : ℕ)
      → IsWellKept ss a
      → get a.pending c ≡ some p
      → Activates setting a c p now b
      → IsWellKept ss b
  Activates-IsWellKept ss a b c p now (_, pendings, actives) found
        (h, becomes, others, more, approved) =
      let (asked, hashed) = pendings c p found in
      (
        h,
        (λ d q held.
            let (was, _) = others d q held in
            let (asked', hashed') = pendings d q was in (more _ asked', hashed')),
        (λ id s e.
            elim (chosen (p.schedule_id == id) (is_delete p.operation) (activated_schedule p now)
              (active a id) s (sym (becomes id) ∙ e)) [
                | inl (_, was) ↦ IsBacked-later ss a b id s more (actives id s was)
                | inr (here, other, is) ↦ inr (
                  lifecycle_from_pending p,
                  more _ asked,
                  approved,
                  (eq_iff p.schedule_id id).0 here,
                  ap (λ x. x.payload_hash) is,
                  subst (IsHashed setting.digest) is (hashed other),
                )
              ]),
      )

  Step-IsWellKept :
      (ss : List RuntimeSchedule) (a b : ManagerState)
      → IsWellKept ss a
      → Step a b
      → IsWellKept ss b
  unfolding list_schedules
  Step-IsWellKept ss a b h (Step.prepare cmd evaluation request_id actor now uuid8 fresh) =
      Requested-IsWellKept ss a b h
        (prepare_pending-Requested setting a cmd evaluation request_id actor now uuid8 h.0 fresh)
  Step-IsWellKept ss a b h (Step.reject c actor now) =
      Requested-IsWellKept ss a b h
        (Kept-Requested setting a b (reject_pending-Kept setting a c actor now h.0))
  Step-IsWellKept ss a b h (Step.approve c now disk) =
      elim (approve_pending-Activates setting a c now disk h.0) [
        | inl (_, kept) ↦ Requested-IsWellKept ss a b h (Kept-Requested setting a b kept)
        | inr (p, found, _, activates) ↦ Activates-IsWellKept ss a b c p now h found activates
      ]
  Step-IsWellKept ss a b h (Step.list now) =
      Requested-IsWellKept ss a b h
        (Kept-Requested setting a b (prune_expired_pending-Kept setting a "system" now h.0))
  Step-IsWellKept ss a b h (Step.attach c) = h

  -- In every state that a manager reaches from its file, by requests of commands that are not pending,
  -- rejections, approvals and listings in any order: the operations that wait and the listed schedules
  -- belong together, an operation that waits was recorded as requested, and a schedule is active only if
  -- it was active in the file, or an operation that gives it was requested and approved, under the hash
  -- of what it sends, where and when.
  pub Reachable-IsWellKept :
      (ss : List RuntimeSchedule) (st : ManagerState) → Reachable ss st → IsWellKept ss st
  unfolding get
  Reachable-IsWellKept ss st Reachable.opened = (
    open_manager-IsConsistent ss,
    (λ c p held. cc (rw (with_schedules-pending (open_manager []) ss).0 at held)),
    (λ id s e. inl e),
  )
  Reachable-IsWellKept ss st (Reachable.later before step) =
      Step-IsWellKept ss _ st (Reachable-IsWellKept ss _ before) step
