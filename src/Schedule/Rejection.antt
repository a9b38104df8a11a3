-- ===== src/Schedule/Rejection.antt =====
-- apps/gateway/src/runtime_schedule.ts: rejections, and the expiry of operations, approve nothing.
use mathlib.Core.List.{Memᴰ}
use mathlib.Core.List.Memᴰ
use mathlib.Core.Option.{some-injective}
use mathlib.Core.Path.{subst}
use blue_tanuki.Base.{
  ℕ, String, ◌==◌, ◌≡◌, refl, sym, ap, ◌∙◌, inl, inr, true, false, Option, none, some, List, [],
  ◌∷◌, map, leb, Bool-cases, Option-cases, eq_iff,
}
use blue_tanuki.Base.Dict.{Dict, get, get-put, get-remove, get-remove_same}
use blue_tanuki.Schedule.Types.{RuntimeSchedule, ScheduleOperation, PendingOperation, ManagerState}
use blue_tanuki.Schedule.Manager.{
  ManagerSetting, active_in, rejected_schedule, without_pending, keep_rejected, reject_found,
  reject_pending, reject_expired, prune_expired_pending,
}
use blue_tanuki.Schedule.Consistent.{
  Fits, IsUpdate, IsKeyed, update_at, update_other, close-IsConsistentOn,
}
use blue_tanuki.Schedule.Invariant.{
  IsConsistent, active, Kept, Kept-trans, put_schedule-IsKeyed, IsUpdate-trivial,
}

module _ (setting : ManagerSetting) where
  -- The listed schedule after a rejection, and that none becomes active or ceases to be.
  kept_schedules :
      (st : ManagerState) (p : PendingOperation) (now : ℕ) (op : ScheduleOperation)
      → p.operation ≡ op
      → p.proposed.id ≡ p.schedule_id
      → Fits (get st.schedules p.schedule_id) p
      → IsKeyed (get st.schedules)
      → let next = keep_rejected setting st p now in
        ((o : Option RuntimeSchedule) × IsUpdate
            (get st.schedules)
            p.schedule_id
            o
            (get next.schedules)
          × (active_in o ≡ active st p.schedule_id))
        × IsKeyed (get next.schedules)
  kept_schedules st p now ScheduleOperation.create e same fits keyed = rw e (
    (some (rejected_schedule p now), (λ j. rw (get-put, same) refl), sym (rw e at fits)),
    put_schedule-IsKeyed st.schedules (rejected_schedule p now) keyed,
  )
  kept_schedules st p now ScheduleOperation.update e same fits keyed =
      rw e ((get st.schedules p.schedule_id, IsUpdate-trivial _ p.schedule_id, refl), keyed)
  kept_schedules st p now ScheduleOperation.delete e same fits keyed =
      rw e ((get st.schedules p.schedule_id, IsUpdate-trivial _ p.schedule_id, refl), keyed)

  active_elsewhere :
      (S S' : String → Option RuntimeSchedule) (k : String) (o : Option RuntimeSchedule)
      → IsUpdate S k o S'
      → active_in o ≡ active_in (S k)
      → (id : String) → active_in (S' id) ≡ active_in (S id)
  active_elsewhere S S' k o u same id = elim (Bool-cases (k == id)) [
    | inl here ↦
        ap active_in (update_at S k id o S' u here)
        ∙ same
        ∙ ap (λ x. active_in (S x)) ((eq_iff k id).0 here)
    | inr there ↦ ap active_in (update_other S k id o S' u there)
  ]

  -- A rejection leaves the rest to its caller.
  kept_rest :
      (st : ManagerState) (p : PendingOperation) (now : ℕ) (op : ScheduleOperation)
      → p.operation ≡ op
      → let next = keep_rejected setting st p now in
        (next.pending ≡ st.pending)
        × (next.pending_by_schedule ≡ st.pending_by_schedule)
        × (next.events ≡ st.events)
  kept_rest st p now ScheduleOperation.create e = rw e (refl, refl, refl)
  kept_rest st p now ScheduleOperation.update e = rw e (refl, refl, refl)
  kept_rest st p now ScheduleOperation.delete e = rw e (refl, refl, refl)

  reject_found-Kept :
      (st : ManagerState) (c actor : String) (now : ℕ) (p : PendingOperation)
      → IsConsistent st
      → get st.pending c ≡ some p
      → Kept st (reject_found setting st c actor now p)
  reject_found-Kept st c actor now p h found =
      let mid = without_pending st c p in
      let (_, proposes, _, fits) = h.0 c p found in
      let ((o, update, same), keyed) =
        kept_schedules mid p now p.operation refl proposes fits h.2 in
      let next = reject_found setting st c actor now p in
      let gone : IsUpdate (get st.pending) c none (get next.pending) = λ j.
        ap (λ m. get m j) (kept_rest mid p now p.operation refl).0 ∙ get-remove st.pending c j in
      let freed : IsUpdate (get st.pending_by_schedule) p.schedule_id none
          (get next.pending_by_schedule) =
        λ j.
          ap (λ m. get m j) (kept_rest mid p now p.operation refl).1
          ∙ get-remove st.pending_by_schedule p.schedule_id j in
      (
        close-IsConsistentOn (get next.pending) (get next.pending_by_schedule) (get next.schedules)
            c p h found gone freed o update keyed,
        active_elsewhere (get st.schedules) (get next.schedules) p.schedule_id o update same,
        (λ d q held. elim (Bool-cases (c == d)) [
          | inl here ↦ cc (update_at (get st.pending) c d none (get next.pending) gone here)
          | inr there ↦
              sym (update_other (get st.pending) c d none (get next.pending) gone there) ∙ held
        ]),
        (λ e m.
            Memᴰ.append_left _ (subst (Memᴰ e) (sym (kept_rest mid p now p.operation refl).2) m)),
      )

  reject_pending-none :
      (st : ManagerState) (c actor : String) (now : ℕ)
      → get st.pending c ≡ none
      → reject_pending setting st c actor now ≡ (none, st)
  unfolding reject_pending
  reject_pending-none st c actor now absent = rw (absent, reject_pending) refl

  reject_pending-some :
      (st : ManagerState) (c actor : String) (now : ℕ) (p : PendingOperation)
      → get st.pending c ≡ some p
      → reject_pending setting st c actor now ≡ (some p, reject_found setting st c actor now p)
  unfolding reject_pending
  reject_pending-some st c actor now p found = rw (found, reject_pending) refl

  pub reject_pending-Kept :
      (st : ManagerState) (c actor : String) (now : ℕ)
      → IsConsistent st
      → Kept st (reject_pending setting st c actor now).1
  reject_pending-Kept st c actor now h = elim (Option-cases (get st.pending c)) [
    | inl absent ↦
        subst (λ r. Kept st r.1) (sym (reject_pending-none st c actor now absent))
          (h, (λ id. refl), (λ d q e. e), (λ e m. m))
    | inr (p, found) ↦
        subst (λ r. Kept st r.1) (sym (reject_pending-some st c actor now p found))
          (reject_found-Kept st c actor now p h found)
  ]

  -- A rejected operation waits no longer.
  reject_pending-gone :
      (st : ManagerState) (c actor : String) (now : ℕ)
      → get (reject_pending setting st c actor now).1.pending c ≡ none
  reject_pending-gone st c actor now = elim (Option-cases (get st.pending c)) [
    | inl absent ↦ ap (λ r. get r.1.pending c) (reject_pending-none st c actor now absent) ∙ absent
    | inr (p, found) ↦
        ap (λ r. get r.1.pending c) (reject_pending-some st c actor now p found)
        ∙ ap (λ m. get m c) (kept_rest (without_pending st c p) p now p.operation refl).0
        ∙ get-remove_same st.pending c
  ]

  reject_expired-expired :
      (p : PendingOperation) (ps : List PendingOperation) (st : ManagerState) (actor : String)
      (now : ℕ)
      → leb p.expires_at_ms now ≡ true
      → reject_expired setting (p ∷ ps) st actor now
        ≡ reject_expired setting ps (reject_pending setting st p.command_id actor now).1 actor now
  unfolding reject_expired
  reject_expired-expired p ps st actor now e = rw (e, reject_expired) refl

  reject_expired-live :
      (p : PendingOperation) (ps : List PendingOperation) (st : ManagerState) (actor : String)
      (now : ℕ)
      → leb p.expires_at_ms now ≡ false
      → reject_expired setting (p ∷ ps) st actor now ≡ reject_expired setting ps st actor now
  unfolding reject_expired
  reject_expired-live p ps st actor now e = rw (e, reject_expired) refl

  pub reject_expired-Kept :
      (ps : List PendingOperation) (st : ManagerState) (actor : String) (now : ℕ)
      → IsConsistent st
      → Kept st (reject_expired setting ps st actor now)
  unfolding reject_expired
  reject_expired-Kept [] st actor now h = (h, (λ id. refl), (λ d q e. e), (λ e m. m))
  reject_expired-Kept (p ∷ ps) st actor now h = elim (Bool-cases (leb p.expires_at_ms now)) [
    | inl expired ↦
        let st1 = (reject_pending setting st p.command_id actor now).1 in
        let once = reject_pending-Kept st p.command_id actor now h in
        subst (Kept st) (sym (reject_expired-expired p ps st actor now expired)) (
          Kept-trans st st1 (reject_expired setting ps st1 actor now) once
            (reject_expired-Kept ps st1 actor now once.0))
    | inr live ↦
        subst (Kept st) (sym (reject_expired-live p ps st actor now live))
          (reject_expired-Kept ps st actor now h)
  ]

  stays_gone :
      (a b : ManagerState) (c : String) → Kept a b → get a.pending c ≡ none → get b.pending c ≡ none
  stays_gone a b c k gone = elim (Option-cases (get b.pending c)) [
    | inl absent ↦ absent
    | inr (p, held) ↦ cc (k.2 c p held)
  ]

  reject_expired-gone :
      (ps : List PendingOperation) (st : ManagerState) (actor : String) (now : ℕ)
      (p : PendingOperation)
      → IsConsistent st
      → Memᴰ p ps
      → leb p.expires_at_ms now ≡ true
      → get (reject_expired setting ps st actor now).pending p.command_id ≡ none
  reject_expired-gone [] st actor now p h m expired = elim m [ ]
  reject_expired-gone (q ∷ ps) st actor now p h m expired =
      elim (Bool-cases (leb q.expires_at_ms now)) [
        | inl first ↦
            let st1 = (reject_pending setting st q.command_id actor now).1 in
            let once = reject_pending-Kept st q.command_id actor now h in
            ap (λ r. get r.pending p.command_id) (reject_expired-expired q ps st actor now first)
            ∙ elim m [
              | Memᴰ.head e ↦
                  stays_gone st1 (reject_expired setting ps st1 actor now) p.command_id
                    (reject_expired-Kept ps st1 actor now once.0)
                    (ap (λ x. get st1.pending x.command_id) e
                      ∙ reject_pending-gone st q.command_id actor now)
              | Memᴰ.tail rest ↦ reject_expired-gone ps st1 actor now p once.0 rest expired
            ]
        | inr later ↦
            ap (λ r. get r.pending p.command_id) (reject_expired-live q ps st actor now later)
            ∙ elim m [
              | Memᴰ.head e ↦ cc (ap (λ x. leb x.expires_at_ms now) e)
              | Memᴰ.tail rest ↦ reject_expired-gone ps st actor now p h rest expired
            ]
      ]

pub get-Mem {ℓ} :
    {V : Type ℓ} (m : Dict V) (k : String) (v : V) → get m k ≡ some v → Memᴰ v (map (λ e. e.1) m)
unfolding get
get-Mem [] k v h = cc
get-Mem ((j, w) ∷ m) k v h = elim (Bool-cases (j == k)) [
  | inl same ↦ Memᴰ.head (some-injective v w (sym (rw same at h)))
  | inr other ↦ Memᴰ.tail (get-Mem m k v (rw other at h))
]

module _ (setting : ManagerSetting) where
  pub prune_expired_pending-Kept :
      (st : ManagerState) (actor : String) (now : ℕ)
      → IsConsistent st
      → Kept st (prune_expired_pending setting st actor now)
  prune_expired_pending-Kept st actor now h =
      reject_expired-Kept setting (map (λ e. e.1) st.pending) st actor now h

  -- What still waits has not expired.
  pub prune_expired_pending-live :
      (st : ManagerState) (actor : String) (now : ℕ) (c : String) (p : PendingOperation)
      → IsConsistent st
      → get (prune_expired_pending setting st actor now).pending c ≡ some p
      → leb p.expires_at_ms now ≡ false
  prune_expired_pending-live st actor now c p h held = elim (Bool-cases (leb p.expires_at_ms now)) [
    | inl expired ↦
        let before : get st.pending c ≡ some p =
          (prune_expired_pending-Kept st actor now h).2 c p held in
        let named : p.command_id ≡ c = (h.0 c p before).0 in
        let gone =
          reject_expired-gone setting (map (λ e. e.1) st.pending) st actor now p h
            (get-Mem st.pending c p before) expired in
        cc (rw named at gone)
    | inr live ↦ live
  ]
