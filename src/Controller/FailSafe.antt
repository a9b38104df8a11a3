-- ===== src/Controller/FailSafe.antt =====
-- The fail-safe paths of controller.ts: suspensions that no human may lift.
use blue_tanuki.Base.{
  ◌||◌, ℕ, String, ◌≡◌, ◌≢◌, ◌⊎◌, inl, inr, refl, ap, Bool, true, false, Option, none, some,
  if◌then◌else◌, ok, thrown, Result, ◌∙◌, arith,
}
use blue_tanuki.Base.Dict.{get, get-put_same, get-remove_same}
use blue_tanuki.Protocol.{Decision, ExecuteCommand}
use blue_tanuki.Process.Types.{InboundRequest}
use blue_tanuki.Audit.{verify}
use blue_tanuki.Health.Types.{HdsBrainHealth}
use blue_tanuki.Health.Laws.{evaluate_hds_brain_health_iff}
use blue_tanuki.Base.Text.{◌<>◌}
use blue_tanuki.Controller.Resume.{
  resume, resume_found, finish_approval, refuse, refused_log, carry_out, resume_log,
}
use blue_tanuki.Controller.Emission.{decide-total, thrown_before}
use blue_tanuki.Controller.Types.{
  ResumeVerdict, SuspendedRequest, ControllerState, ControllerPhase, DecisionLog, Setting,
}
use blue_tanuki.Controller.Command.{commit_of, suspend_commit, build_command, command_for}
use blue_tanuki.Routing.Content.{route_action}
use blue_tanuki.Controller.Prepare.{
  BoundaryResult, valid, invalid, Decided, is_denied, lifted, boundary_log, fallback_request,
  authority_request, evaluate_self_health, fail_safe_log, suspend_fail_safe,
}
use blue_tanuki.Controller.Machine.{decide}

module _ {Num : Type 0} (setting : Setting Num) where
  -- What a fail-safe suspension leaves behind: the request is held and no human may resume it.
  abbrev pub IsHeld : String → Decided Num × ControllerState Num → Type 0
  IsHeld id (out, next) =
      (out.command ≡ none)
      × (out.log.commit.decision ≡ Decision.suspend)
      × (next.phase ≡ ControllerPhase.suspended)
      × ((susp : SuspendedRequest Num) × (get next.suspended id ≡ some susp)
          × (susp.resume_allowed ≡ some false)
          × (susp.log ≡ out.log))

  held :
      (st : ControllerState Num) (req : InboundRequest) (log : DecisionLog Num)
      (health : Option HdsBrainHealth) (now : ℕ)
      → log.commit.decision ≡ Decision.suspend
      → IsHeld req.id (
        record { log = log; command = none; request = req },
        suspend_fail_safe setting st req log health now,
      )
  held st req log health now h =
      (refl, h, refl, (_, get-put_same st.suspended req.id _, refl, refl))

  chosen {ℓ} : {A : Type ℓ} (b : Bool) (x y : A) → b ≡ true → (if b then x else y) ≡ x
  chosen b x y h = rw h

  -- While HDS-BRAIN fails safe, every inbound request, valid or invalid, is suspended without a
  -- command, and the suspension does not allow a resume.
  pub decide-fail_safe :
      (st : ControllerState Num) (req : InboundRequest) (reason : String) (n : ℕ) (uuid : String)
      (now : ℕ)
      → (evaluate_self_health setting st now).fail_safe ≡ true
      → ((r : Decided Num × ControllerState Num) × (decide setting st (valid req) uuid now ≡ ok r)
          × IsHeld req.id r)
        × ((r : Decided Num × ControllerState Num) × (decide setting st (invalid reason n) uuid now
              ≡ ok r)
            × IsHeld "invalid-inbound-boundary" r)
  unfolding decide boundary_log fail_safe_log suspend_commit commit_of
  decide-fail_safe st req reason n uuid now h = (
    (_, chosen _ _ _ h, held st (authority_request setting req) _ _ now refl),
    (_, refl, held st (fallback_request now) _ none now refl),
  )

  not-false-true : (b : Bool) → b ≢ false → b ≡ true
  not-false-true b h = ground arith

  contradiction : {b : Bool} → b ≡ false → b ≡ true → ⊥
  contradiction h k = cc

  -- A controller whose audit chain no longer verifies fails safe.
  pub evaluate_self_health-tampered :
      (st : ControllerState Num) (now : ℕ)
      → verify setting.sha256 setting.stringify st.audit ≡ false
      → (evaluate_self_health setting st now).fail_safe ≡ true
  unfolding evaluate_self_health
  evaluate_self_health-tampered st now broken = not-false-true _ (λ h.
      contradiction broken
        (((evaluate_hds_brain_health_iff setting.digest_report setting.process now _ _).0.0 h).2))

  -- Once the audit chain no longer verifies, no inbound request leads to a command.
  pub decide-tampered :
      (st : ControllerState Num) (raw : BoundaryResult) (uuid : String) (now : ℕ)
      → verify setting.sha256 setting.stringify st.audit ≡ false
      → (r : Decided Num × ControllerState Num) × (decide setting st raw uuid now ≡ ok r)
        × (r.0.command ≡ none)
        × (r.1.inflight ≡ st.inflight)
  decide-tampered st raw uuid now broken = elim (decide-total setting st raw uuid now) [
    | inl (r, result, (nothing, kept)) ↦ (r, result, nothing, kept)
    | inr (req, _, healthy, _) ↦
        absurd (contradiction healthy (evaluate_self_health-tampered st now broken))
  ]

  refused_go : {A : Type 0} (b : Bool) (x y : A) → b ≡ true → (if b then x else y) ≡ x
  refused_go b x y h = rw h

  or_true : (b c : Bool) → (b ≡ true) ⊎ (c ≡ true) → (b || c) ≡ true
  or_true b c h = ground arith

  -- A human verdict on a held request is refused, and so is any verdict while HDS-BRAIN fails safe: no
  -- command, a SUSPEND in the log, and the suspensions and the commands in flight as they were.
  pub resume-denied :
      (st : ControllerState Num) (id : String) (susp : SuspendedRequest Num) (req : InboundRequest)
      (v : ResumeVerdict) (actor : Option String) (uuid : String) (now : ℕ)
      → get st.suspended id ≡ some susp
      → get st.suspended_requests id ≡ some req
      → (is_denied susp.resume_allowed ≡ true)
        ⊎ ((evaluate_self_health setting st now).fail_safe ≡ true)
      → (r : Decided Num × ControllerState Num) × (resume setting st id v actor uuid now
          ≡ (ok r.0, r.1))
        × (r.0.command ≡ none)
        × (r.0.log.commit.decision ≡ Decision.suspend)
        × (r.1.suspended ≡ st.suspended)
        × (r.1.suspended_requests ≡ st.suspended_requests)
        × (r.1.inflight ≡ st.inflight)
  unfolding resume resume_found refuse refused_log
  resume-denied st id susp req v actor uuid now found found_request denied =
      let health = evaluate_self_health setting st now in
      (
        (
          record {
            log = refused_log setting susp health v actor now;
            command = none;
            request = req;
          },
          (refuse setting st susp req health v actor now).1,
        ),
        rw found (
            rw found_request (
              refused_go (is_denied susp.resume_allowed || health.fail_safe)
                (refuse setting st susp req health v actor now)
                (carry_out setting st id susp req v actor uuid now) (or_true _ _ denied))),
        refl,
        refl,
        refl,
        refl,
        refl,
      )

  lifted_go :
      {A : Type 0} (b c : Bool) (x y : A) → b ≡ false → c ≡ false → (if b || c then x else y) ≡ y
  lifted_go b c x y h k = rw h (rw k refl)

  -- What the result of a verdict holds: the command that `buildCommand` makes of the request on approval, unless
  -- the router throws, and no command otherwise.
  abbrev pub IsResult :
      ResumeVerdict → InboundRequest → String → Result String (Decided Num) → Type 0
  IsResult ResumeVerdict.approve req uuid result =
      ((e : String) × (result ≡ thrown e)
        × (route_action setting.to_upper setting.parse_json req ≡ thrown e))
      ⊎ ((out : Decided Num) × (result ≡ ok out)
          × ((command : ExecuteCommand) × (out.command ≡ some command)
              × (build_command setting req out.log uuid ≡ ok command))
          × (out.log.commit.decision ≡ Decision.assert))
  IsResult v req uuid result =
      (out : Decided Num) × (result ≡ ok out)
      × (out.command ≡ none)
      × (out.log.commit.decision ≡ lifted v)

  finish_approval-IsResult :
      (built : Result String ExecuteCommand) (log : DecisionLog Num) (req : InboundRequest)
      (next : ControllerState Num) (uuid : String)
      → build_command setting req log uuid ≡ built
      → log.commit.decision ≡ Decision.assert
      → IsResult ResumeVerdict.approve req uuid (finish_approval setting built log req next).0
  unfolding finish_approval build_command
  finish_approval-IsResult (thrown e) log req next uuid h k = inl (
    e,
    refl,
    thrown_before setting (route_action setting.to_upper setting.parse_json req)
        (command_for setting req log uuid) e h,
  )
  finish_approval-IsResult (ok command) log req next uuid h k = inr (_, refl, (command, refl, h), k)

  finish_approval-suspended :
      (built : Result String ExecuteCommand) (log : DecisionLog Num) (req : InboundRequest)
      (next : ControllerState Num)
      → (finish_approval setting built log req next).1.suspended ≡ next.suspended
  unfolding finish_approval
  finish_approval-suspended (thrown e) log req next = refl
  finish_approval-suspended (ok command) log req next = refl

  carry_out-IsResult :
      (st : ControllerState Num) (id : String) (susp : SuspendedRequest Num) (req : InboundRequest)
      (v : ResumeVerdict) (actor : Option String) (uuid : String) (now : ℕ)
      → let r = carry_out setting st id susp req v actor uuid now in
        IsResult v req uuid r.0 × (get r.1.suspended id ≡ none)
  unfolding carry_out resume_log
  carry_out-IsResult st id susp req ResumeVerdict.approve actor uuid now = (
    finish_approval-IsResult _ _ req _ uuid refl refl,
    ap (λ m. get m id) (finish_approval-suspended _ _ req _) ∙ get-remove_same st.suspended id,
  )
  carry_out-IsResult st id susp req ResumeVerdict.reject actor uuid now =
      ((_, refl, refl, refl), get-remove_same st.suspended id)
  carry_out-IsResult st id susp req ResumeVerdict.block actor uuid now =
      ((_, refl, refl, refl), get-remove_same st.suspended id)

  resume-absent :
      (st : ControllerState Num) (id : String) (v : ResumeVerdict) (actor : Option String)
      (uuid : String) (now : ℕ)
      → get st.suspended id ≡ none
      → resume setting st id v actor uuid now
        ≡ (thrown ("resume: no suspended request with id=" <> id), st)
  unfolding resume resume_found
  resume-absent st id v actor uuid now h = rw h refl

  -- When HDS-BRAIN is healthy and the suspension may be resumed, a verdict is carried out. Only an approval
  -- gives a command, which is what `buildCommand` makes of the original request whatever the
  -- process's execution policy says of it, and it throws only if the action router does. The log
  -- holds the verdict's decision. In every case, after a throw too, the suspension is gone, and a
  -- second verdict throws and changes nothing.
  pub resume-lifted :
      (st : ControllerState Num) (id : String) (susp : SuspendedRequest Num) (req : InboundRequest)
      (v : ResumeVerdict) (actor : Option String) (uuid : String) (now : ℕ)
      → get st.suspended id ≡ some susp
      → get st.suspended_requests id ≡ some req
      → is_denied susp.resume_allowed ≡ false
      → (evaluate_self_health setting st now).fail_safe ≡ false
      → let r = resume setting st id v actor uuid now in
        IsResult v req uuid r.0
        × ((again : ResumeVerdict) (who : Option String) (other : String) (later : ℕ)
            → resume setting r.1 id again who other later
              ≡ (thrown ("resume: no suspended request with id=" <> id), r.1))
  unfolding resume resume_found
  resume-lifted st id susp req v actor uuid now found found_request may healthy =
      let health = evaluate_self_health setting st now in
      let r = carry_out setting st id susp req v actor uuid now in
      let (result, gone) = carry_out-IsResult st id susp req v actor uuid now in
      let same : resume setting st id v actor uuid now ≡ r = rw found (
        rw found_request (
          lifted_go (is_denied susp.resume_allowed) health.fail_safe
            (refuse setting st susp req health v actor now) r may healthy)) in
      rw same (result, λ again who other later. resume-absent r.1 id again who other later gone)
