-- ===== src/Schedule/Request.antt =====
-- apps/gateway/src/runtime_schedule.ts: what a request for an operation leaves.
use mathlib.Core.Path.{subst}
use mathlib.Core.Option.{some-injective}
use mathlib.Core.List.{Memᴰ}
use mathlib.Core.List.Memᴰ
use blue_tanuki.Base.{
  ℕ, String, ◌==◌, ◌≡◌, ◌⊎◌, refl, sym, ◌∙◌, inl, inr, Option, none, some, Bool-cases, Option-cases,
  or_else, Result, ok, thrown,
}
use blue_tanuki.Base.Dict.{get, put, get-put}
use blue_tanuki.Protocol.{ToolCallPayload, Body, ExecuteCommand}
use blue_tanuki.Approval.Types.{ApprovalEvaluation}
use blue_tanuki.Controller.Types.{ScheduleLifecycleEvent}
use blue_tanuki.Schedule.Types.{ScheduleOperation, PendingOperation, ManagerState}
use blue_tanuki.Schedule.Manager.{ManagerSetting, lifecycle_from_pending, prune_expired_pending}
use blue_tanuki.Schedule.Prepare.{
  operation_of, build_pending, store_pending, prepare_tool, prepare_body, prepare_pending,
}
use blue_tanuki.Schedule.Consistent.{Fits, IsUpdate, update_at, update_other, open-IsConsistentOn}
use blue_tanuki.Schedule.Invariant.{IsConsistent, active, Grows, Kept}
use blue_tanuki.Schedule.Rejection.{prune_expired_pending-Kept}
use blue_tanuki.Schedule.Proposal.{IsHashedPending, build_pending-ok}

module _ (setting : ManagerSetting) where
  -- What a request for an operation does: the same schedules are active, and the operations that wait are
  -- those before and perhaps a new one, whose request is recorded and whose schedule carries its hash.
  abbrev pub Requested : ManagerState → ManagerState → Type 0
  Requested st next =
      IsConsistent next
      × ((id : String) → active next id ≡ active st id)
      × ((d : String) (q : PendingOperation)
          → get next.pending d ≡ some q
          → (get st.pending d ≡ some q)
            ⊎ (Memᴰ (ScheduleLifecycleEvent.requested, lifecycle_from_pending q) next.events
                × IsHashedPending setting q))
      × Grows st next

  pub Kept-Requested : (st : ManagerState) (next : ManagerState) → Kept st next → Requested st next
  Kept-Requested st next (h, same, fewer, more) = (h, same, (λ d q e. inl (fewer d q e)), more)

  store_pending-Requested :
      (st : ManagerState) (c : String) (r : Result String PendingOperation)
      → IsConsistent st
      → get st.pending c ≡ none
      → ((p : PendingOperation)
          → ◌≡◌ {A = Result String PendingOperation} r (ok p)
          → (p.command_id ≡ c)
            × (p.proposed.id ≡ p.schedule_id)
            × (get st.pending_by_schedule p.schedule_id ≡ none)
            × Fits (get st.schedules p.schedule_id) p
            × IsHashedPending setting p)
      → Requested st (store_pending st c r).1
  store_pending-Requested st c (thrown e) h fresh fits =
      Kept-Requested st st (h, (λ id. refl), (λ d q e. e), (λ e m. m))
  store_pending-Requested st c (ok p) h fresh fits =
      let (named, proposes, free, fit, hashed) = fits p refl in
      let put_in : IsUpdate (get st.pending) c (some p) (get (put st.pending c p)) =
        λ j. get-put st.pending c j p in
      (
        open-IsConsistentOn (get (put st.pending c p))
            (get (put st.pending_by_schedule p.schedule_id c)) (get st.schedules) c p h fresh free
            named proposes fit put_in (λ j. get-put st.pending_by_schedule p.schedule_id j c),
        (λ id. refl),
        (λ d q held. elim (Bool-cases (c == d)) [
          | inl here ↦
              let both : p ≡ q =
                some-injective p q
                  (sym (update_at (get st.pending) c d (some p) _ put_in here) ∙ held) in
              inr (
                subst
                  (λ x.
                    Memᴰ (ScheduleLifecycleEvent.requested, lifecycle_from_pending x)
                      (store_pending st c (ok p)).1.events
                    × IsHashedPending setting x)
                  both (Memᴰ.append_right st.events (Memᴰ.head refl), hashed))
          | inr there ↦ inl (sym (update_other (get st.pending) c d (some p) _ put_in there) ∙ held)
        ]),
        (λ e m. Memᴰ.append_left _ m),
      )

  prepare_tool-Requested :
      (st : ManagerState) (cmd : ExecuteCommand) (p : ToolCallPayload)
      (evaluation : ApprovalEvaluation) (request_id : Option String) (actor : String) (now : ℕ)
      (uuid8 : String) (o : Option ScheduleOperation)
      → IsConsistent st
      → get st.pending cmd.id ≡ none
      → Requested st (prepare_tool setting st cmd p evaluation request_id actor now uuid8 o).1
  prepare_tool-Requested st cmd p evaluation request_id actor now uuid8 none h fresh =
      Kept-Requested st st (h, (λ id. refl), (λ d q e. e), (λ e m. m))
  prepare_tool-Requested st cmd p evaluation request_id actor now uuid8 (some op) h fresh =
      store_pending-Requested st cmd.id
        (build_pending setting st op cmd p evaluation request_id actor now uuid8) h fresh
        (λ q e. build_pending-ok setting st op cmd p evaluation request_id actor now uuid8 q h.2 e)

  prepare_body-Requested :
      (st : ManagerState) (cmd : ExecuteCommand) (b : Body) (evaluation : ApprovalEvaluation)
      (request_id : Option String) (actor : String) (now : ℕ) (uuid8 : String)
      → IsConsistent st
      → get st.pending cmd.id ≡ none
      → Requested st (prepare_body setting st cmd b evaluation request_id actor now uuid8).1
  prepare_body-Requested st cmd (Body.tool_call p) evaluation request_id actor now uuid8 h fresh =
      prepare_tool-Requested st cmd p evaluation request_id actor now uuid8
        (operation_of p.tool_name) h fresh
  prepare_body-Requested st cmd _ evaluation request_id actor now uuid8 h fresh =
      Kept-Requested st st (h, (λ id. refl), (λ d q e. e), (λ e m. m))

  pub prepare_pending-Requested :
      (st : ManagerState) (cmd : ExecuteCommand) (evaluation : ApprovalEvaluation)
      (request_id actor : Option String) (now : ℕ) (uuid8 : String)
      → IsConsistent st
      → get st.pending cmd.id ≡ none
      → Requested st (prepare_pending setting st cmd evaluation request_id actor now uuid8).1
  unfolding prepare_pending
  prepare_pending-Requested st cmd evaluation request_id actor now uuid8 h fresh =
      let who = or_else actor evaluation.context.actor in
      let live = prune_expired_pending setting st who now in
      let (consistent, same, fewer, more) = prune_expired_pending-Kept setting st who now h in
      let absent : get live.pending cmd.id ≡ none = elim (Option-cases (get live.pending cmd.id)) [
        | inl absent ↦ absent
        | inr (p, held) ↦ cc (fewer cmd.id p held)
      ] in
      let (h', same', one_more, more') =
        prepare_body-Requested live cmd cmd.body evaluation request_id who now uuid8 consistent
          absent in
      (
        h',
        (λ id. same' id ∙ same id),
        (λ d q held. elim (one_more d q held) [
          | inl was ↦ inl (fewer d q was)
          | inr event ↦ inr event
        ]),
        (λ e m. more' e (more e m)),
      )
