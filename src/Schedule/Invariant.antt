-- ===== src/Schedule/Invariant.antt =====
-- apps/gateway/src/runtime_schedule.ts: what the operations that approve nothing do to the schedules that are active
-- and to the operations that wait.
use mathlib.Core.List.{Memᴰ}
use mathlib.Core.Option.{some-injective}
use blue_tanuki.Base.{
  String, ◌==◌, ◌≡◌, refl, sym, ap, ◌∙◌, inl, inr, Option, some, Bool-cases, eq_iff,
}
use blue_tanuki.Base.Dict.{Dict, get, put, get-put}
use blue_tanuki.Controller.Types.{ScheduleLifecycleEvent}
use blue_tanuki.Schedule.Types.{RuntimeSchedule, PendingOperation, ScheduleLifecycle, ManagerState}
use blue_tanuki.Schedule.Manager.{active_in}
use blue_tanuki.Schedule.Consistent.{IsUpdate, IsKeyed, IsConsistentOn, update_at, update_other}

abbrev pub IsConsistent : ManagerState → Type 0
IsConsistent st = IsConsistentOn (get st.pending) (get st.pending_by_schedule) (get st.schedules)

-- The schedule that is active under an id.
abbrev pub active : ManagerState → String → Option RuntimeSchedule
active st id = active_in (get st.schedules id)

-- No event is forgotten.
abbrev pub Grows : ManagerState → ManagerState → Type 0
Grows st next =
    (e : ScheduleLifecycleEvent × ScheduleLifecycle) → Memᴰ e st.events → Memᴰ e next.events

-- What happens without an approval: consistency stays, the same schedules are active, and operations
-- are taken out of those that wait, if anything.
abbrev pub Kept : ManagerState → ManagerState → Type 0
Kept st next =
    IsConsistent next
    × ((id : String) → active next id ≡ active st id)
    × ((c : String) (p : PendingOperation)
        → get next.pending c ≡ some p
        → get st.pending c ≡ some p)
    × Grows st next

pub Kept-trans : (a b c : ManagerState) → Kept a b → Kept b c → Kept a c
Kept-trans a b c (_, same, fewer, more) (h, same', fewer', more') = (
  h,
  (λ id. same' id ∙ same id),
  (λ k p e. fewer k p (fewer' k p e)),
  (λ e m. more' e (more e m)),
)

pub put_schedule-IsKeyed :
    (m : Dict RuntimeSchedule) (s : RuntimeSchedule)
    → IsKeyed (get m)
    → IsKeyed (get (put m s.id s))
put_schedule-IsKeyed m s h id t e = elim (Bool-cases (s.id == id)) [
  | inl same ↦
      let both : s ≡ t =
        some-injective s t
          (sym (update_at (get m) s.id id (some s) _ (λ j. get-put m s.id j s) same) ∙ e) in
      ap (λ x. x.id) (sym both) ∙ (eq_iff s.id id).0 same
  | inr other ↦
      h id t (sym (update_other (get m) s.id id (some s) _ (λ j. get-put m s.id j s) other) ∙ e)
]

pub IsUpdate-trivial : (f : String → Option RuntimeSchedule) (k : String) → IsUpdate f k (f k) f
IsUpdate-trivial f k j = elim (Bool-cases (k == j)) [
  | inl same ↦ rw same (ap f (sym ((eq_iff k j).0 same)))
  | inr other ↦ rw other refl
]
