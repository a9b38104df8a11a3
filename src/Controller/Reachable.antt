-- ===== src/Controller/Reachable.antt =====
-- Every state that controller.ts can reach is well formed, and what downstream reports leave alone.
use blue_tanuki.Base.{
  ℕ, String, ◌≡◌, refl, sym, ◌∙◌, ◌==◌, ◌||◌, Bool, true, false, Option, none, some, List,
  if◌then◌else◌, Result, ok, thrown,
}
use blue_tanuki.Base.Dict.{Dict, get, remove, get-remove}
use blue_tanuki.Controller.Invariant.{
  IsWellFormed, record_in-Verifies, decision-Verifies, AllAsserted-put, AllAsserted-if,
  SameKeys-remove, decide-IsWellFormed, removed_cases,
}
use blue_tanuki.Audit.{AuditLog, verify}
use blue_tanuki.Protocol.{Decision, ExecuteCommand}
use blue_tanuki.Process.Types.{InboundRequest}
use blue_tanuki.Health.Types.{HdsBrainHealth}
use blue_tanuki.Controller.Types.{
  ControllerState, ControllerPhase, DecisionLog, SuspendedRequest, AuditRecord, ResumeVerdict,
  Setting,
}
use blue_tanuki.Controller.Prepare.{Decided, evaluate_self_health, is_denied}
use blue_tanuki.Controller.Resume.{
  resume, resume_found, refuse, carry_out, resume_log, finish_approval,
}
use blue_tanuki.Controller.Events.{
  DownstreamEvent, ControllerEvent, inbound, verdict, downstream, feedback, approval, authority,
  lifecycle, schedule, invariants, on_downstream, on_feedback, on_approval_evaluation,
  on_authority_event, on_command_lifecycle, on_schedule_lifecycle, on_runtime_invariants_evidence,
  drops_command, step,
}

module _ {Num : Type 0} (setting : Setting Num) where
  refuse-IsWellFormed :
      (st : ControllerState Num) (susp : SuspendedRequest Num) (req : InboundRequest)
      (health : HdsBrainHealth) (v : ResumeVerdict) (actor : Option String) (now : ℕ)
      → IsWellFormed setting st
      → IsWellFormed setting (refuse setting st susp req health v actor now).1
  unfolding refuse
  refuse-IsWellFormed st susp req health v actor now (c, a, s) =
      (record_in-Verifies setting st.audit _ c, a, s)

  finish_approval-IsWellFormed :
      (built : Result String ExecuteCommand) (log : DecisionLog Num) (req : InboundRequest)
      (next : ControllerState Num)
      → log.commit.decision ≡ Decision.assert
      → IsWellFormed setting next
      → IsWellFormed setting (finish_approval setting built log req next).1
  unfolding finish_approval
  finish_approval-IsWellFormed (thrown e) log req next h w = w
  finish_approval-IsWellFormed (ok command) log req next h (c, a, s) =
      (c, AllAsserted-put setting next.inflight command.id log a h, s)

  carry_out-IsWellFormed :
      (st : ControllerState Num) (id : String) (susp : SuspendedRequest Num) (req : InboundRequest)
      (v : ResumeVerdict) (actor : Option String) (uuid : String) (now : ℕ)
      → IsWellFormed setting st
      → IsWellFormed setting (carry_out setting st id susp req v actor uuid now).1
  unfolding carry_out resume_log
  carry_out-IsWellFormed st id susp req ResumeVerdict.approve actor uuid now (c, a, s) =
      finish_approval-IsWellFormed _ _ req _ refl (
        decision-Verifies setting st.audit _ now c,
        a,
        SameKeys-remove setting st.suspended st.suspended_requests id s,
      )
  carry_out-IsWellFormed st id susp req ResumeVerdict.reject actor uuid now (c, a, s) = (
    record_in-Verifies setting st.audit _ c,
    a,
    SameKeys-remove setting st.suspended st.suspended_requests id s,
  )
  carry_out-IsWellFormed st id susp req ResumeVerdict.block actor uuid now (c, a, s) = (
    record_in-Verifies setting st.audit _ c,
    a,
    SameKeys-remove setting st.suspended st.suspended_requests id s,
  )

  either_state :
      (b : Bool) (x y : Result String (Decided Num) × ControllerState Num)
      → IsWellFormed setting x.1
      → IsWellFormed setting y.1
      → IsWellFormed setting (if b then x else y).1
  either_state true x y h k = h
  either_state false x y h k = k

  resume_found-IsWellFormed :
      (st : ControllerState Num) (id : String) (o : Option (SuspendedRequest Num))
      (p : Option InboundRequest) (v : ResumeVerdict) (actor : Option String) (uuid : String)
      (now : ℕ)
      → IsWellFormed setting st
      → IsWellFormed setting (resume_found setting st id o p v actor uuid now).1
  unfolding resume_found
  resume_found-IsWellFormed st id none p v actor uuid now w = w
  resume_found-IsWellFormed st id (some susp) none v actor uuid now w = w
  resume_found-IsWellFormed st id (some susp) (some req) v actor uuid now w =
      let health = evaluate_self_health setting st now in
      either_state (is_denied susp.resume_allowed || health.fail_safe)
        (refuse setting st susp req health v actor now)
        (carry_out setting st id susp req v actor uuid now)
        (refuse-IsWellFormed st susp req health v actor now w)
        (carry_out-IsWellFormed st id susp req v actor uuid now w)

  on_downstream-IsWellFormed :
      (st : ControllerState Num) (event : DownstreamEvent) (now : ℕ)
      → IsWellFormed setting st
      → IsWellFormed setting (on_downstream setting st event now)
  unfolding on_downstream on_feedback on_approval_evaluation on_authority_event on_command_lifecycle
      on_schedule_lifecycle on_runtime_invariants_evidence
  on_downstream-IsWellFormed st (feedback fb) now (c, a, s) = (
    record_in-Verifies setting st.audit _ c,
    AllAsserted-if setting _ st.inflight fb.command_id a,
    s,
  )
  on_downstream-IsWellFormed st (approval evaluation id) now (c, a, s) =
      (record_in-Verifies setting _ _ (record_in-Verifies setting st.audit _ c), a, s)
  on_downstream-IsWellFormed st (authority event opts) now (c, a, s) =
      (record_in-Verifies setting st.audit _ c, a, s)
  on_downstream-IsWellFormed st (lifecycle id phase actor reason) now (c, a, s) = (
    record_in-Verifies setting st.audit _ c,
    AllAsserted-if setting (drops_command phase) st.inflight id a,
    s,
  )
  on_downstream-IsWellFormed st (schedule log) now (c, a, s) =
      (record_in-Verifies setting st.audit _ c, a, s)
  on_downstream-IsWellFormed st (invariants report id reason) now (c, a, s) =
      (record_in-Verifies setting st.audit _ c, a, s)

  step-IsWellFormed :
      (st : ControllerState Num) (event : ControllerEvent) (uuid : String) (now : ℕ)
      → IsWellFormed setting st
      → IsWellFormed setting (step setting st event uuid now)
  unfolding step resume
  step-IsWellFormed st (inbound raw) uuid now w = decide-IsWellFormed setting st raw uuid now w
  step-IsWellFormed st (verdict id v actor) uuid now w =
      resume_found-IsWellFormed st id (get st.suspended id) (get st.suspended_requests id) v actor
        uuid now w
  step-IsWellFormed st (downstream event) uuid now w = on_downstream-IsWellFormed st event now w

  -- The states that a controller can reach from one that starts with an audit log.
  pub data Reachable (audit : AuditLog (AuditRecord Num)) : ControllerState Num → Type 0 where
    start : Reachable audit (record {
      phase = ControllerPhase.idle;
      audit = audit;
      inflight = List.[];
      suspended = List.[];
      suspended_requests = List.[];
    })
    after :
        {st : ControllerState Num} (event : ControllerEvent) (uuid : String) (now : ℕ)
        → Reachable audit st
        → Reachable audit (step setting st event uuid now)

  nothing : {A : Type 0} (id : String) → get {V = A} List.[] id ≡ none
  unfolding get
  nothing id = refl

  -- Whatever requests, verdicts and downstream events come in, in any order, a controller that starts
  -- with an audit log whose chain verifies keeps it verified, holds in flight only commands logged
  -- as ASSERT, and keeps a request exactly for every suspension.
  pub Reachable-IsWellFormed :
      {audit : AuditLog (AuditRecord Num)} {st : ControllerState Num}
      → verify setting.sha256 setting.stringify audit ≡ true
      → Reachable audit st
      → IsWellFormed setting st
  unfolding get
  Reachable-IsWellFormed v start = (v, (λ id log e. cc), λ id. refl)
  Reachable-IsWellFormed v (after event uuid now r) =
      step-IsWellFormed _ event uuid now (Reachable-IsWellFormed v r)

  kept_if :
      (b : Bool) (m : Dict (DecisionLog Num)) (id j : String) (log : DecisionLog Num)
      → get (if b then remove m id else m) j ≡ some log
      → get m j ≡ some log
  kept_if true m id j log e =
      removed_cases setting (id == j) log (get m j) (sym (get-remove m id j) ∙ e)
  kept_if false m id j log e = e

  -- A state that a report leaves with the same phase and suspensions, and with no command in flight that
  -- was not there before.
  abbrev pub NoGain : ControllerState Num → ControllerState Num → Type 0
  NoGain st next =
      (next.phase ≡ st.phase)
      × (next.suspended ≡ st.suspended)
      × (next.suspended_requests ≡ st.suspended_requests)
      × ((id : String) (log : DecisionLog Num)
          → get next.inflight id ≡ some log
          → get st.inflight id ≡ some log)

  on_downstream-NoGain :
      (st : ControllerState Num) (event : DownstreamEvent) (now : ℕ)
      → NoGain st (on_downstream setting st event now)
  unfolding on_downstream on_feedback on_approval_evaluation on_authority_event on_command_lifecycle
      on_schedule_lifecycle on_runtime_invariants_evidence
  on_downstream-NoGain st (feedback fb) now =
      (refl, refl, refl, λ j log e. kept_if _ st.inflight fb.command_id j log e)
  on_downstream-NoGain st (approval evaluation id) now = (refl, refl, refl, λ j log e. e)
  on_downstream-NoGain st (authority event opts) now = (refl, refl, refl, λ j log e. e)
  on_downstream-NoGain st (lifecycle id phase actor reason) now =
      (refl, refl, refl, λ j log e. kept_if (drops_command phase) st.inflight id j log e)
  on_downstream-NoGain st (schedule log) now = (refl, refl, refl, λ j l e. e)
  on_downstream-NoGain st (invariants report id reason) now = (refl, refl, refl, λ j l e. e)

  abbrev pub run_downstream : ControllerState Num → List (DownstreamEvent × ℕ) → ControllerState Num
  run_downstream st List.[] = st
  run_downstream st (List.◌∷◌ (event, now) events) =
      run_downstream (on_downstream setting st event now) events

  -- No sequence of executor feedback, approval, authority, lifecycle, schedule and invariants reports lifts a
  -- suspension, changes the controller's phase or puts a command in flight.
  pub run_downstream-NoGain :
      (st : ControllerState Num) (events : List (DownstreamEvent × ℕ))
      → NoGain st (run_downstream st events)
  run_downstream-NoGain st List.[] = (refl, refl, refl, λ j l e. e)
  run_downstream-NoGain st (List.◌∷◌ (event, now) events) =
      let (p, s, r, k) = on_downstream-NoGain st event now in
      let (ps, ss, rs, ks) = run_downstream-NoGain (on_downstream setting st event now) events in
      (ps ∙ p, ss ∙ s, rs ∙ r, λ j l e. k j l (ks j l e))
