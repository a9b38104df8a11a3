-- ===== src/Schedule/Activation.antt =====
-- apps/gateway/src/runtime_schedule.ts: what an approval changes.
use mathlib.Core.Path.{subst}
use mathlib.Core.List.{Memᴰ}
use mathlib.Core.List.Memᴰ
use blue_tanuki.Base.{
  ℕ, String, ◌==◌, ◌≡◌, ◌⊎◌, refl, sym, ap, ◌∙◌, inl, inr, false, none, some, leb, Bool-cases,
  Option-cases, if◌then◌else◌, Result, thrown,
}
use blue_tanuki.Base.Dict.{get, get-put, get-remove}
use blue_tanuki.Controller.Types.{ScheduleLifecycleEvent}
use blue_tanuki.Schedule.Types.{PendingOperation, ManagerState}
use blue_tanuki.Schedule.Manager.{
  ManagerSetting, is_delete, active_in, lifecycle_from_pending, prune_expired_pending,
}
use blue_tanuki.Schedule.Approve.{activated_schedule, approve_found, approve_pending}
use blue_tanuki.Schedule.Consistent.{
  IsUpdate, IsKeyed, update_at, update_other, close-IsConsistentOn,
}
use blue_tanuki.Schedule.Invariant.{IsConsistent, active, Grows, Kept, put_schedule-IsKeyed}
use blue_tanuki.Schedule.Rejection.{prune_expired_pending-Kept, prune_expired_pending-live}
use blue_tanuki.Schedule.Effects.{result_of, approve_found-Resulting}

module _ (setting : ManagerSetting) where
  -- What an approval of a waiting operation `p` does.
  abbrev pub Activates : ManagerState → String → PendingOperation → ℕ → ManagerState → Type 0
  Activates st c p now next =
      IsConsistent next
      × ((id : String)
          → active next id ≡ (
              if p.schedule_id == id
              then if is_delete p.operation then none else some (activated_schedule p now)
              else active st id))
      × ((d : String) (q : PendingOperation)
          → get next.pending d ≡ some q
          → (get st.pending d ≡ some q) × ((c == d) ≡ false))
      × Grows st next
      × Memᴰ (ScheduleLifecycleEvent.approved, lifecycle_from_pending p) next.events

  approve_found-Activates :
      (st : ManagerState) (c : String) (p : PendingOperation) (now : ℕ) (disk : Result String Unit)
      → IsConsistent st
      → get st.pending c ≡ some p
      → Activates st c p now (approve_found setting st c p now disk).1
  approve_found-Activates st c p now disk h found =
      let (_, proposes, _, fits) = h.0 c p found in
      let next = (approve_found setting st c p now disk).1 in
      let s = result_of p now in
      let ((pendings, by_schedule, listed, more), same, becomes) =
        approve_found-Resulting setting st c p now disk p.operation refl fits h.2 proposes in
      let gone : IsUpdate (get st.pending) c none (get next.pending) =
        λ j. ap (λ m. get m j) pendings ∙ get-remove st.pending c j in
      let freed : IsUpdate (get st.pending_by_schedule) p.schedule_id none
          (get next.pending_by_schedule) =
        λ j. ap (λ m. get m j) by_schedule ∙ get-remove st.pending_by_schedule p.schedule_id j in
      let update : IsUpdate (get st.schedules) p.schedule_id (some s) (get next.schedules) = λ j.
        ap (λ m. get m j) listed
        ∙ get-put st.schedules s.id j s
        ∙ ap (λ k. if k == j then some s else get st.schedules j) same in
      let keyed : IsKeyed (get next.schedules) =
        subst (λ m. IsKeyed (get m)) (sym listed) (put_schedule-IsKeyed st.schedules s h.2) in
      (
        close-IsConsistentOn (get next.pending) (get next.pending_by_schedule) (get next.schedules)
            c p h found gone freed (some s) update keyed,
        (λ id. elim (Bool-cases (p.schedule_id == id)) [
          | inl here ↦
              ap active_in (
                update_at (get st.schedules) p.schedule_id id (some s) (get next.schedules) update
                  here)
              ∙ becomes
              ∙ ap
                  (λ b.
                    if b
                    then if is_delete p.operation then none else some (activated_schedule p now)
                    else active st id)
                  (sym here)
          | inr there ↦
              ap active_in (
                update_other (get st.schedules) p.schedule_id id (some s) (get next.schedules)
                  update there)
              ∙ ap
                  (λ b.
                    if b
                    then if is_delete p.operation then none else some (activated_schedule p now)
                    else active st id)
                  (sym there)
        ]),
        (λ d q held. elim (Bool-cases (c == d)) [
          | inl here ↦ cc (update_at (get st.pending) c d none (get next.pending) gone here)
          | inr there ↦ (
            sym (update_other (get st.pending) c d none (get next.pending) gone there) ∙ held,
            there,
          )
        ]),
        (λ e m. more e (Memᴰ.append_left _ m)),
        more _ (Memᴰ.append_right st.events (Memᴰ.head refl)),
      )

  approve_pending-none :
      (st : ManagerState) (c : String) (now : ℕ) (disk : Result String Unit)
      → let live = prune_expired_pending setting st "system" now in
        get live.pending c ≡ none
        → approve_pending setting st c now disk ≡ (
          thrown
              "schedule approval missing or expired; nothing was activated; submit the schedule request again and approve the new command_id",
          live,
        )
  unfolding approve_pending
  approve_pending-none st c now disk absent = rw (absent, approve_pending) refl

  approve_pending-some :
      (st : ManagerState) (c : String) (now : ℕ) (disk : Result String Unit) (p : PendingOperation)
      → let live = prune_expired_pending setting st "system" now in
        get live.pending c ≡ some p
        → approve_pending setting st c now disk ≡ approve_found setting live c p now disk
  unfolding approve_pending
  approve_pending-some st c now disk p found = rw (found, approve_pending) refl

  -- An approval finds no operation of that command that waits and has not expired, and nothing becomes
  -- active or ceases to be; or it finds one, which waits no longer. Then the schedule of that
  -- operation, and no other, is what the operation proposed, active, or, for a deletion, is not active,
  -- also when writing the file or scheduling the task fails. The three maps stay consistent.
  pub approve_pending-Activates :
      (st : ManagerState) (c : String) (now : ℕ) (disk : Result String Unit)
      → IsConsistent st
      → let r = approve_pending setting st c now disk in
        ((r.0
            ≡ thrown
                "schedule approval missing or expired; nothing was activated; submit the schedule request again and approve the new command_id")
          × Kept st r.1)
        ⊎ ((p : PendingOperation) × (get st.pending c ≡ some p)
            × (leb p.expires_at_ms now ≡ false)
            × Activates st c p now r.1)
  approve_pending-Activates st c now disk h =
      let live = prune_expired_pending setting st "system" now in
      let (consistent, same, fewer, more) = prune_expired_pending-Kept setting st "system" now h in
      elim (Option-cases (get live.pending c)) [
        | inl absent ↦
            let runs = approve_pending-none st c now disk absent in
            inl (
              ap (λ r. r.0) runs,
              subst (λ r. Kept st r.1) (sym runs) (consistent, same, fewer, more),
            )
        | inr (p, found) ↦
            let runs = approve_pending-some st c now disk p found in
            let (stays, becomes, others, grows, event) =
              approve_found-Activates live c p now disk consistent found in
            inr (
              p,
              fewer c p found,
              prune_expired_pending-live setting st "system" now c p h found,
              subst (λ r. Activates st c p now r.1) (sym runs)
                  (
                    stays,
                    (λ id.
                        becomes id
                        ∙ ap
                            (λ o.
                              if p.schedule_id == id
                              then if is_delete p.operation
                                then none
                                else some (activated_schedule p now)
                              else o)
                            (same id)),
                    (λ d q held. let (was, other) = others d q held in (fewer d q was, other)),
                    (λ e m. grows e (more e m)),
                    event,
                  ),
            )
      ]
