-- ===== src/Schedule/Proposal.antt =====
-- apps/gateway/src/runtime_schedule.ts: what `buildPending` gives is new, belongs to its command and fits the
-- schedules.
use mathlib.Core.Path.{subst}
use blue_tanuki.Base.{
  ℕ, String, ◌≡◌, refl, sym, ap, ◌∙◌, inl, inr, true, false, Option, none, some, is_some,
  Bool-cases, Option-cases, if◌then◌else◌, Result, ok, thrown, ◌>>=◌, bind_ok, ok-injective,
}
use blue_tanuki.Base.Text.{◌<>◌}
use blue_tanuki.Base.Dict.{Dict, get}
use blue_tanuki.Base.Json.{Json}
use blue_tanuki.Protocol.{ToolCallPayload, ExecuteCommand}
use blue_tanuki.Approval.Types.{ApprovalEvaluation}
use blue_tanuki.Schedule.Types.{
  ScheduleStatus, RuntimeSchedule, ScheduleOperation, PendingOperation, ManagerState,
}
use blue_tanuki.Schedule.Args.{
  string_arg, optional_time, optional_interval, field_of, option_of, with_timing, cron_payload_hash,
  build_schedule_from_args,
}
use blue_tanuki.Schedule.Manager.{ManagerSetting, is_active, is_delete, active_in}
use blue_tanuki.Schedule.Prepare.{id_for, free_id, proposal, pending_from_schedule, build_pending}
use blue_tanuki.Schedule.Consistent.{Fits, IsKeyed}

with_timing-ok :
    (digest : String → String → String → String → Option ℕ → String) (time : Option String)
    (interval_ms : Option ℕ) (s t : RuntimeSchedule)
    → ◌≡◌ {A = Result String RuntimeSchedule} (with_timing digest time interval_ms s) (ok t)
    → s ≡ t
with_timing-ok digest none none s t h = cc
with_timing-ok digest (some x) i s t h = ok-injective s t h
with_timing-ok digest none (some n) s t h = ok-injective s t h

-- A schedule carries the hash of what it sends and when.
abbrev pub IsHashed :
    (String → String → String → String → Option ℕ → String) → RuntimeSchedule → Type 0
IsHashed digest s =
    s.payload_hash ≡ cron_payload_hash digest s.channel s.target s.content s.time s.interval_ms

build_schedule_from_args-IsHashed :
    (digest : String → String → String → String → Option ℕ → String) (id : String)
    (args : Dict Json) (now : ℕ) (previous : Option RuntimeSchedule) (s : RuntimeSchedule)
    → ◌≡◌ {A = Result String RuntimeSchedule}
        (build_schedule_from_args digest id args now previous)
        (ok s)
    → (s.id ≡ id) × IsHashed digest s
unfolding build_schedule_from_args
build_schedule_from_args-IsHashed digest id args now previous s h =
    let (channel, _, h1) =
      bind_ok (string_arg args "channel" (field_of (λ x. x.channel) previous)) _ s h in
    let (target, _, h2) =
      bind_ok (string_arg args "target" (field_of (λ x. x.target) previous)) _ s h1 in
    let (content, _, h3) =
      bind_ok (string_arg args "content" (field_of (λ x. x.content) previous)) _ s h2 in
    let (time, _, h4) =
      bind_ok (optional_time (get args "time") (option_of (λ x. x.time) previous)) _ s h3 in
    let (interval_ms, _, h5) =
      bind_ok (optional_interval (get args "interval_ms") (option_of (λ x. x.interval_ms) previous))
        _ s h4 in
    subst (λ x. (x.id ≡ id) × IsHashed digest x) (with_timing-ok digest time interval_ms _ s h5)
      (refl, refl)

active_in-some :
    (o : Option RuntimeSchedule) (s : RuntimeSchedule)
    → active_in o ≡ some s
    → (o ≡ some s) × (is_active s ≡ true)
active_in-some none s h = cc
active_in-some (some t) s h = elim (Bool-cases (is_active t)) [
  | inl holds ↦
      let e : some t ≡ some s = rw holds at h in
      (e, subst (λ o. elim o [ none ↦ is_active s ≡ true | some x ↦ is_active x ≡ true ]) e holds)
  | inr fails ↦ cc (rw fails at h)
]

free_id-ok :
    (st : ManagerState) (given id : String)
    → ◌≡◌ {A = Result String String} (free_id st given) (ok id)
    → (id ≡ given) × (get st.pending_by_schedule given ≡ none)
free_id-ok st given id h = elim (Option-cases (get st.pending_by_schedule given)) [
  | inl free ↦ (sym (ok-injective given id (rw free at h)), free)
  | inr (c, taken) ↦ cc (rw taken at h)
]

module _ (setting : ManagerSetting) where
  -- What the schedule under an id allows: the one that is changed, or none that is active.
  abbrev Proposed :
      ScheduleOperation
      → String
      → Option RuntimeSchedule
      → RuntimeSchedule × Option RuntimeSchedule
      → Type 0
  Proposed ScheduleOperation.create id o r =
      (r.0.id ≡ id) × (active_in o ≡ none) × IsHashed setting.digest r.0
  Proposed ScheduleOperation.update id o r =
      (r.0.id ≡ id)
      × ((s : RuntimeSchedule) × (r.1 ≡ some s) × (o ≡ some s) × (is_active s ≡ true))
      × IsHashed setting.digest r.0
  Proposed ScheduleOperation.delete id o r =
      (r.0.id ≡ id) × ((s : RuntimeSchedule) × (r.1 ≡ some s) × (o ≡ some s) × (is_active s ≡ true))

  updated-Proposed :
      (id : String) (args : Dict Json) (now : ℕ) (o a : Option RuntimeSchedule)
      (r : RuntimeSchedule × Option RuntimeSchedule)
      → active_in o ≡ a
      → ◌≡◌ {A = Result String (RuntimeSchedule × Option RuntimeSchedule)}
          (elim a [
            | none ↦ thrown ("schedule " <> id <> " is not active; nothing was changed")
            | some s ↦ build_schedule_from_args setting.digest id args now (some s) >>= λ next.
                ok (next, some s)
          ])
          (ok r)
      → Proposed ScheduleOperation.update id o r
  updated-Proposed id args now o none r e h = cc
  updated-Proposed id args now o (some s) r e h =
      let (next, built, given) =
        bind_ok (build_schedule_from_args setting.digest id args now (some s)) _ r h in
      let both : (next, some s) ≡ r = ok-injective _ r given in
      let (is, holds) = active_in-some o s e in
      let (named, hashed) =
        build_schedule_from_args-IsHashed setting.digest id args now (some s) next built in
      (
        ap (λ x. x.0.id) (sym both) ∙ named,
        (s, ap (λ x. x.1) (sym both), is, holds),
        subst (λ x. IsHashed setting.digest x.0) both hashed,
      )

  deleted-Proposed :
      (id : String) (now : ℕ) (o a : Option RuntimeSchedule)
      (r : RuntimeSchedule × Option RuntimeSchedule)
      → ((s : RuntimeSchedule) → o ≡ some s → s.id ≡ id)
      → active_in o ≡ a
      → ◌≡◌ {A = Result String (RuntimeSchedule × Option RuntimeSchedule)}
          (elim a [
            | none ↦ thrown ("schedule " <> id <> " is not active; nothing was changed")
            | some s ↦ ok (
              record s { enabled = false; status = ScheduleStatus.pending; updated_at_ms = now },
              some s,
            )
          ])
          (ok r)
      → Proposed ScheduleOperation.delete id o r
  deleted-Proposed id now o none r keyed e h = cc
  deleted-Proposed id now o (some s) r keyed e h =
      let both : (
        record s { enabled = false; status = ScheduleStatus.pending; updated_at_ms = now },
        some s,
      )
          ≡ r =
        ok-injective _ r h in
      let (is, holds) = active_in-some o s e in
      (ap (λ x. x.0.id) (sym both) ∙ keyed s is, (s, ap (λ x. x.1) (sym both), is, holds))

  created-Proposed :
      (id : String) (args : Dict Json) (now : ℕ) (o a : Option RuntimeSchedule)
      (r : RuntimeSchedule × Option RuntimeSchedule)
      → active_in o ≡ a
      → ◌≡◌ {A = Result String (RuntimeSchedule × Option RuntimeSchedule)}
          (if is_some a
            then thrown ("schedule " <> id <> " is already active; nothing was activated")
            else build_schedule_from_args setting.digest id args now none >>= λ s. ok (s, o))
          (ok r)
      → Proposed ScheduleOperation.create id o r
  created-Proposed id args now o (some s) r e h = cc
  created-Proposed id args now o none r e h =
      let (next, built, given) =
        bind_ok (build_schedule_from_args setting.digest id args now none) _ r h in
      let (named, hashed) =
        build_schedule_from_args-IsHashed setting.digest id args now none next built in
      (
        ap (λ x. x.0.id) (sym (ok-injective _ r given)) ∙ named,
        e,
        subst (λ x. IsHashed setting.digest x.0) (ok-injective _ r given) hashed,
      )

  proposal-Proposed :
      (op : ScheduleOperation) (id : String) (args : Dict Json) (now : ℕ)
      (o : Option RuntimeSchedule) (r : RuntimeSchedule × Option RuntimeSchedule)
      → ((s : RuntimeSchedule) → o ≡ some s → s.id ≡ id)
      → ◌≡◌ {A = Result String (RuntimeSchedule × Option RuntimeSchedule)}
          (proposal setting op id args now o)
          (ok r)
      → Proposed op id o r
  proposal-Proposed ScheduleOperation.create id args now o r keyed h =
      created-Proposed id args now o _ r refl h
  proposal-Proposed ScheduleOperation.update id args now o r keyed h =
      updated-Proposed id args now o _ r refl h
  proposal-Proposed ScheduleOperation.delete id args now o r keyed h =
      deleted-Proposed id now o _ r keyed refl h

  -- What a pending operation proposes carries its hash, unless it deletes.
  abbrev pub IsHashedPending : PendingOperation → Type 0
  IsHashedPending p = is_delete p.operation ≡ false → IsHashed setting.digest p.proposed

  Proposed-Fits :
      (op : ScheduleOperation) (cmd : ExecuteCommand) (evaluation : ApprovalEvaluation)
      (request_id : Option String) (actor : String) (now : ℕ) (id : String)
      (o : Option RuntimeSchedule) (r : RuntimeSchedule × Option RuntimeSchedule)
      → Proposed op id o r
      → let p = pending_from_schedule setting cmd evaluation op r.0 r.1 request_id actor now in
        (r.0.id ≡ id) × Fits o p × IsHashedPending p
  Proposed-Fits ScheduleOperation.create cmd evaluation request_id actor now id o r
        (named, fits, hashed) =
      (named, fits, (λ _. hashed))
  Proposed-Fits ScheduleOperation.update cmd evaluation request_id actor now id o r
        (named, fits, hashed) =
      (named, fits, (λ _. hashed))
  Proposed-Fits ScheduleOperation.delete cmd evaluation request_id actor now id o r (named, fits) =
      (named, fits, (λ e. cc))

  pub build_pending-ok :
      (st : ManagerState) (op : ScheduleOperation) (cmd : ExecuteCommand) (p : ToolCallPayload)
      (evaluation : ApprovalEvaluation) (request_id : Option String) (actor : String) (now : ℕ)
      (uuid8 : String) (q : PendingOperation)
      → IsKeyed (get st.schedules)
      → ◌≡◌ {A = Result String PendingOperation}
          (build_pending setting st op cmd p evaluation request_id actor now uuid8)
          (ok q)
      → (q.command_id ≡ cmd.id)
        × (q.proposed.id ≡ q.schedule_id)
        × (get st.pending_by_schedule q.schedule_id ≡ none)
        × Fits (get st.schedules q.schedule_id) q
        × IsHashedPending q
  unfolding build_pending
  build_pending-ok st op cmd p evaluation request_id actor now uuid8 q keyed h =
      let (given, _, h1) = bind_ok (id_for op (get p.arguments "id") now uuid8) _ q h in
      let (id, free, h2) = bind_ok (free_id st given) _ q h1 in
      let (r, proposed, h3) =
        bind_ok (proposal setting op id p.arguments now (get st.schedules id)) _ q h2 in
      let (same, none_waits) = free_id-ok st given id free in
      let (named, fits, hashed) =
        Proposed-Fits op cmd evaluation request_id actor now id (get st.schedules id) r (
          proposal-Proposed op id p.arguments now (get st.schedules id) r (λ s e. keyed id s e)
            proposed) in
      subst
        (λ x.
          (x.command_id ≡ cmd.id)
          × (x.proposed.id ≡ x.schedule_id)
          × (get st.pending_by_schedule x.schedule_id ≡ none)
          × Fits (get st.schedules x.schedule_id) x
          × IsHashedPending x)
        (ok-injective _ q h3)
        (
          refl,
          refl,
          ap (get st.pending_by_schedule) (named ∙ same) ∙ none_waits,
          subst
              (λ k.
                Fits (get st.schedules k)
                  (pending_from_schedule setting cmd evaluation op r.0 r.1 request_id actor now))
              (sym named) fits,
          hashed,
        )
