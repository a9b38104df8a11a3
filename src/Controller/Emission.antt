-- ===== src/Controller/Emission.antt =====
-- When `decide` of controller.ts gives a command, and what it leaves alone otherwise.
use blue_tanuki.Base.{
  ℕ, String, ◌≡◌, ◌≢◌, ◌⊎◌, inl, inr, refl, ap, Bool, true, false, Option, none, some,
  if◌then◌else◌, ok, thrown, Result, ◌>>=◌,
}
use blue_tanuki.Base.Dict.{put}
use blue_tanuki.Protocol.{Decision, ExecuteCommand}
use blue_tanuki.Process.Types.{InboundRequest, FrameResult}
use blue_tanuki.Policy.Types.{ModelResult}
use blue_tanuki.Policy.Scoring.{model}
use blue_tanuki.Policy.Decide.{commit, evaluate_decision}
use blue_tanuki.Controller.Types.{ControllerState, DecisionLog, Setting}
use blue_tanuki.Controller.Command.{
  commit_of, security_commit, process_authority_violation, command_execution_policy_violation,
  build_command, command_for,
}
use blue_tanuki.Controller.Prepare.{
  BoundaryResult, valid, invalid, Decided, authority_request, evaluate_self_health, frame_of,
  log_of,
}
use blue_tanuki.Controller.Machine.{
  commit_unless, first_commit, emit, check, settle, judge, decide_healthy, decide, denied_log,
}
use blue_tanuki.Routing.Content.{route_action}

module _ {Num : Type 0} (setting : Setting Num) where
  commit_unless-assert :
      (req : InboundRequest) (f : FrameResult) (m : ModelResult Num) (o : Option String)
      → (commit_unless setting req f m o).decision ≡ Decision.assert
      → (o ≡ none)
        × ((evaluate_decision setting.numbers m.scoring setting.policy).decision ≡ Decision.assert)
  unfolding commit_unless security_commit commit_of commit
  commit_unless-assert req f m none h = (refl, h)
  commit_unless-assert req f m (some v) h = cc

  first_commit-assert :
      (req : InboundRequest) (f : FrameResult) (m : ModelResult Num)
      → (first_commit setting req f m).decision ≡ Decision.assert
      → (process_authority_violation f ≡ none)
        × ((evaluate_decision setting.numbers m.scoring setting.policy).decision ≡ Decision.assert)
  unfolding first_commit
  first_commit-assert req f m h = commit_unless-assert req f m (process_authority_violation f) h

  -- A log with a command that it may send, a log that asserts nothing, or a router that throws.
  abbrev Checked :
      DecisionLog Num
      → Result String ExecuteCommand
      → Result String (DecisionLog Num × Option ExecuteCommand)
      → Type 0
  Checked log candidate r =
      ((e : String) × (candidate ≡ thrown e) × (r ≡ thrown e))
      ⊎ (((command : ExecuteCommand) × (candidate ≡ ok command)
            × (r ≡ ok (log, some command))
            × (log.commit.decision ≡ Decision.assert)
            × (command_execution_policy_violation command log.frame.process ≡ none))
          ⊎ ((quiet : DecisionLog Num) × (r ≡ ok (quiet, none))
              × (quiet.commit.decision ≢ Decision.assert)))

  emit-Checked :
      (log : DecisionLog Num) (command : ExecuteCommand) (now : ℕ) (o : Option String)
      (candidate : Result String ExecuteCommand)
      → candidate ≡ ok command
      → command_execution_policy_violation command log.frame.process ≡ o
      → log.commit.decision ≡ Decision.assert
      → Checked log candidate (ok (emit setting log command o now))
  unfolding emit denied_log security_commit commit_of
  emit-Checked log command now none candidate made e h = inr (inl (command, made, refl, h, e))
  emit-Checked log command now (some v) candidate made e h = inr (inr (_, refl, λ k. cc))

  assert-Checked :
      (log : DecisionLog Num) (now : ℕ) (candidate : Result String ExecuteCommand)
      → log.commit.decision ≡ Decision.assert
      → Checked log candidate (check setting Decision.assert log candidate now)
  unfolding check
  assert-Checked log now (thrown e) h = inl (e, refl, refl)
  assert-Checked log now (ok command) h =
      emit-Checked log command now (command_execution_policy_violation command log.frame.process)
        (ok command) refl refl h

  check-Checked :
      (log : DecisionLog Num) (candidate : Result String ExecuteCommand) (now : ℕ) (d : Decision)
      → log.commit.decision ≡ d
      → Checked log candidate (check setting d log candidate now)
  unfolding check
  check-Checked log candidate now Decision.assert h = assert-Checked log now candidate h
  check-Checked log candidate now Decision.suspend h = inr (inr (log, refl, λ k. cc))
  check-Checked log candidate now Decision.out_of_scope h = inr (inr (log, refl, λ k. cc))
  check-Checked log candidate now Decision.fail h = inr (inr (log, refl, λ k. cc))

  -- What a call of `decide` that gives no command leaves as it was.
  abbrev pub IsSilent : ControllerState Num → Decided Num × ControllerState Num → Type 0
  IsSilent st (out, next) = (out.command ≡ none) × (next.inflight ≡ st.inflight)

  settle-IsSilent :
      (d : Decision) (st : ControllerState Num) (req : InboundRequest) (log : DecisionLog Num)
      (command : Option ExecuteCommand) (now : ℕ)
      → d ≢ Decision.assert
      → (r : Decided Num × ControllerState Num) × (settle setting d st req log command now ≡ ok r)
        × IsSilent st r
        × (r.0.log ≡ log)
  unfolding settle
  settle-IsSilent Decision.assert st req log command now h = absurd (h refl)
  settle-IsSilent Decision.suspend st req log command now h = (_, refl, (refl, refl), refl)
  settle-IsSilent Decision.out_of_scope st req log command now h = (_, refl, (refl, refl), refl)
  settle-IsSilent Decision.fail st req log command now h = (_, refl, (refl, refl), refl)

  -- the log that a healthy decision starts from
  abbrev judged_log : InboundRequest → ℕ → DecisionLog Num
  judged_log raw now =
      let req = authority_request setting raw in
      let m = model setting.numbers setting.detectors req (frame_of setting req) setting.policy in
      log_of setting req
        (blue_tanuki.Normalization.normalize_for_detection setting.nfkc raw.content) m
        (first_commit setting req (frame_of setting req) m) now

  judge-Checked :
      (raw : InboundRequest) (uuid : String) (now : ℕ)
      → Checked
          (judged_log raw now)
          (build_command setting (authority_request setting raw) (judged_log raw now) uuid)
          (judge setting raw uuid now)
  unfolding judge
  judge-Checked raw uuid now =
      check-Checked (judged_log raw now) _ now (judged_log raw now).commit.decision refl

  -- What a call of `decide` that gives the command `candidate` rests on, and what it changes.
  abbrev pub IsEmission :
      ControllerState Num
      → InboundRequest
      → String
      → ExecuteCommand
      → Decided Num × ControllerState Num
      → Type 0
  IsEmission st raw uuid command (out, next) =
      (out.command ≡ some command)
      × (build_command setting (authority_request setting raw) out.log uuid ≡ ok command)
      × (out.log.frame ≡ frame_of setting (authority_request setting raw))
      × (process_authority_violation out.log.frame ≡ none)
      × ((evaluate_decision setting.numbers out.log.model.scoring setting.policy).decision
          ≡ Decision.assert)
      × (command_execution_policy_violation command out.log.frame.process ≡ none)
      × (out.log.commit.decision ≡ Decision.assert)
      × (next.inflight ≡ put st.inflight command.id out.log)
      × (next.suspended ≡ st.suspended)

  settle-IsEmission :
      (d : Decision) (st : ControllerState Num) (raw req : InboundRequest) (log : DecisionLog Num)
      (command : ExecuteCommand) (uuid : String) (now : ℕ)
      → d ≡ Decision.assert
      → (build_command setting (authority_request setting raw) log uuid ≡ ok command)
        × (log.frame ≡ frame_of setting (authority_request setting raw))
        × (process_authority_violation log.frame ≡ none)
        × ((evaluate_decision setting.numbers log.model.scoring setting.policy).decision
            ≡ Decision.assert)
        × (command_execution_policy_violation command log.frame.process ≡ none)
        × (log.commit.decision ≡ Decision.assert)
      → (r : Decided Num × ControllerState Num) × (settle setting d st req log (some command) now
          ≡ ok r)
        × IsEmission st raw uuid command r
  unfolding settle
  settle-IsEmission Decision.assert st raw req log command uuid now h (made, f, a, b, c, d) =
      (_, refl, (refl, made, f, a, b, c, d, refl, refl))
  settle-IsEmission Decision.suspend st raw req log command uuid now h k = cc
  settle-IsEmission Decision.out_of_scope st raw req log command uuid now h k = cc
  settle-IsEmission Decision.fail st raw req log command uuid now h k = cc

  -- The action router throws on the request that is decided on.
  abbrev pub RouterThrows : InboundRequest → String → Type 0
  RouterThrows raw e =
      route_action setting.to_upper setting.parse_json (authority_request setting raw) ≡ thrown e

  thrown_value :
      {B : Type 0} {d e : String} → ◌≡◌ {A = Result String B} (thrown d) (thrown e) → d ≡ e
  thrown_value h = cc

  pub thrown_before :
      {A B : Type 0} (r : Result String A) (f : A → B) (e : String)
      → (r >>= λ a. ok (f a)) ≡ thrown e
      → r ≡ thrown e
  thrown_before (ok a) f e h = cc
  thrown_before (thrown d) f e h = ap thrown (thrown_value h)

  build_command-RouterThrows :
      (raw : InboundRequest) (log : DecisionLog Num) (uuid e : String)
      → build_command setting (authority_request setting raw) log uuid ≡ thrown e
      → RouterThrows raw e
  unfolding build_command
  build_command-RouterThrows raw log uuid e h =
      thrown_before
        (route_action setting.to_upper setting.parse_json (authority_request setting raw))
        (command_for setting (authority_request setting raw) log uuid) e h

  -- What `decide` comes to: it throws because the router does, it is silent, or it emits.
  abbrev Outcome :
      ControllerState Num
      → InboundRequest
      → String
      → Result String (Decided Num × ControllerState Num)
      → Type 0
  Outcome st raw uuid result =
      ((e : String) × (result ≡ thrown e) × RouterThrows raw e)
      ⊎ ((r : Decided Num × ControllerState Num) × (result ≡ ok r)
          × (IsSilent st r ⊎ ((command : ExecuteCommand) × IsEmission st raw uuid command r)))

  decide_healthy-Outcome :
      (st : ControllerState Num) (raw : InboundRequest) (uuid : String) (now : ℕ)
      → Outcome st raw uuid (decide_healthy setting st raw uuid now)
  unfolding decide_healthy
  decide_healthy-Outcome st raw uuid now =
      let req = authority_request setting raw in
      let log = judged_log raw now in
      elim (judge-Checked raw uuid now) [
        | inl (e, built, e') ↦ inl (e, rw e' refl, build_command-RouterThrows raw log uuid e built)
        | inr (inl (command, made, e, asserted, allowed)) ↦
            let (authority, policy) = first_commit-assert req (frame_of setting req) _ asserted in
            let (r, result, emission) =
              settle-IsEmission log.commit.decision st raw req log command uuid now asserted
                (made, refl, authority, policy, allowed, asserted) in
            inr (r, rw e result, inr (command, emission))
        | inr (inr (l, e, quiet)) ↦
            let (r, result, silent, _) =
              settle-IsSilent l.commit.decision st req l none now quiet in
            inr (r, rw e result, inl silent)
      ]

  decided_by :
      (b : Bool) (st : ControllerState Num) (req : InboundRequest) (uuid : String) (now : ℕ)
      (silent : Decided Num × ControllerState Num)
      → IsSilent st silent
      → let result = if b then ok silent else decide_healthy setting st req uuid now in
        ((r : Decided Num × ControllerState Num) × (result ≡ ok r) × IsSilent st r)
        ⊎ ((raw : InboundRequest) × (valid req ≡ valid raw)
            × (b ≡ false)
            × (((e : String) × (result ≡ thrown e) × RouterThrows raw e)
                ⊎ ((r : Decided Num × ControllerState Num) × (result ≡ ok r)
                    × (command : ExecuteCommand) × IsEmission st raw uuid command r)))
  decided_by true st req uuid now silent h = inl (silent, refl, h)
  decided_by false st req uuid now silent h = elim (decide_healthy-Outcome st req uuid now) [
    | inl throws ↦ inr (req, refl, refl, inl throws)
    | inr (r, result, inl quiet) ↦ inl (r, result, quiet)
    | inr (r, result, inr (command, emission)) ↦
        inr (req, refl, refl, inr (r, result, command, emission))
  ]

  -- `decide` throws only when HDS-BRAIN is healthy and the action router throws on the request. Otherwise it
  -- gives no command and leaves the commands in flight alone, or HDS-BRAIN is healthy and the one
  -- command it gives is what `buildCommand` makes of the normalised request, has passed process authority, the policy's thresholds and the process's
  -- execution policy, is logged as ASSERT and is put in flight with that log.
  pub decide-total :
      (st : ControllerState Num) (raw : BoundaryResult) (uuid : String) (now : ℕ)
      → ((r : Decided Num × ControllerState Num) × (decide setting st raw uuid now ≡ ok r)
          × IsSilent st r)
        ⊎ ((req : InboundRequest) × (raw ≡ valid req)
            × ((evaluate_self_health setting st now).fail_safe ≡ false)
            × (((e : String) × (decide setting st raw uuid now ≡ thrown e) × RouterThrows req e)
                ⊎ ((r : Decided Num × ControllerState Num) × (decide setting st raw uuid now ≡ ok r)
                    × (command : ExecuteCommand) × IsEmission st req uuid command r)))
  unfolding decide
  decide-total st (invalid reason n) uuid now = inl (_, refl, (refl, refl))
  decide-total st (valid req) uuid now =
      decided_by (evaluate_self_health setting st now).fail_safe st req uuid now _ (refl, refl)
