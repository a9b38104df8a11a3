-- ===== src/Controller/Machine.antt =====
-- controller.ts: `decide` and `resume`, the two operations that lead to a command. `uuid` is what
-- `randomUUID` returns, `now` what `Date.now` does.
use blue_tanuki.Base.{ℕ, String, Option, none, some, if◌then◌else◌, Result, ok, thrown, ◌>>=◌}
use blue_tanuki.Base.Dict.{put}
use blue_tanuki.Base.Json.{Json, Fields}
use blue_tanuki.Protocol.{Decision, ExecuteCommand, type_of}
use blue_tanuki.Process.Types.{InboundRequest, FrameResult}
use blue_tanuki.Normalization.{normalize_for_detection}
use blue_tanuki.Policy.Types.{ModelResult, CommitResult}
use blue_tanuki.Policy.Scoring.{model}
use blue_tanuki.Policy.Decide.{commit}
use blue_tanuki.Controller.Types.{
  ControllerPhase, ControllerState, DecisionLog, AuditRecord, Setting,
}
use blue_tanuki.Controller.Command.{
  security_commit, process_authority_violation, command_execution_policy_violation,
  command_type_name, build_command,
}
use blue_tanuki.Controller.Prepare.{
  BoundaryResult, valid, invalid, Decided, fallback_request, record_in, evaluate_self_health,
  capture_memory_reference, frame_of, suspend_fail_safe, authority_request, boundary_log,
  fail_safe_log, log_of,
}

module _ {Num : Type 0} (setting : Setting Num) where
  -- the commit before a command is built, with the violation of process authority if there is one
  unfoldable pub commit_unless :
      InboundRequest → FrameResult → ModelResult Num → Option String → CommitResult
  commit_unless req f m (some violation) =
      security_commit setting.digest_json "process_authority_denied" violation (
        Fields.field "request_id" (Json.str req.id) (
          Fields.field "actor" (setting.actor_json f.actor)
            (Fields.field "process" (Json.str f.process.process_id) Fields.end)))
  commit_unless req f m none = commit setting.numbers setting.digest_scoring m setting.policy

  unfoldable pub first_commit : InboundRequest → FrameResult → ModelResult Num → CommitResult
  first_commit req f m = commit_unless req f m (process_authority_violation f)

  -- the log of a decision whose command the execution policy denies
  unfoldable pub denied_log : DecisionLog Num → ExecuteCommand → String → ℕ → DecisionLog Num
  denied_log log candidate violation now = record {
    request_id = log.request_id;
    input = log.input;
    resume = log.resume;
    frame = log.frame;
    model = log.model;
    commit = security_commit setting.digest_json "process_execution_policy_denied" violation (
        Fields.field "request_id" (Json.str log.request_id) (
          Fields.field "actor" (setting.actor_json log.frame.actor) (
            Fields.field "process" (Json.str log.frame.process.process_id) (
              Fields.field "command_type" (Json.str (command_type_name (type_of candidate.body))) (
                Fields.field "command_id" (Json.str candidate.id)
                  (Fields.field "prior_commit_hash" (Json.str log.commit.hash) Fields.end))))));
    timestamp = now;
  }

  unfoldable pub emit :
      DecisionLog Num → ExecuteCommand → Option String → ℕ → DecisionLog Num × Option ExecuteCommand
  emit log candidate none now = (log, some candidate)
  emit log candidate (some violation) now = (denied_log log candidate violation now, none)

  -- a command is built and checked for an ASSERT alone
  unfoldable pub check :
      Decision
      → DecisionLog Num
      → Result String ExecuteCommand
      → ℕ
      → Result String (DecisionLog Num × Option ExecuteCommand)
  check Decision.assert log candidate now = candidate >>= λ command.
      ok (emit log command (command_execution_policy_violation command log.frame.process) now)
  check _ log candidate now = ok (log, none)

  abbrev with_audit :
      ControllerState Num → DecisionLog Num → ℕ → ControllerPhase → ControllerState Num
  with_audit st log now phase = record {
    phase = phase;
    audit =
        capture_memory_reference setting (record_in setting st.audit (AuditRecord.decision log)) log
          now;
    inflight = st.inflight;
    suspended = st.suspended;
    suspended_requests = st.suspended_requests;
  }

  -- the `switch` on the decision, after the log is recorded
  unfoldable pub settle :
      Decision
      → ControllerState Num
      → InboundRequest
      → DecisionLog Num
      → Option ExecuteCommand
      → ℕ
      → Result String (Decided Num × ControllerState Num)
  settle Decision.assert st req log none now =
      thrown "ASSERT without command after process execution policy"
  settle Decision.assert st req log (some command) now = ok (
    record { log = log; command = some command; request = req },
    record {
      phase = ControllerPhase.decided;
      audit = (with_audit st log now ControllerPhase.decided).audit;
      inflight = put st.inflight command.id log;
      suspended = st.suspended;
      suspended_requests = st.suspended_requests;
    },
  )
  settle Decision.suspend st req log command now = ok (
    record { log = log; command = none; request = req },
    record {
      phase = ControllerPhase.suspended;
      audit = (with_audit st log now ControllerPhase.suspended).audit;
      inflight = st.inflight;
      suspended = put st.suspended req.id (record {
        request_id = req.id;
        log = log;
        suspended_at = now;
        reason = log.commit.reason;
        fail_safe = none;
        resume_allowed = none;
        self_health = none;
      });
      suspended_requests = put st.suspended_requests req.id req;
    },
  )
  settle _ st req log command now = ok (
    record { log = log; command = none; request = req },
    with_audit st log now ControllerPhase.decided,
  )

  -- the log and the command of a request as it came in, when HDS-BRAIN is healthy
  unfoldable pub judge :
      InboundRequest → String → ℕ → Result String (DecisionLog Num × Option ExecuteCommand)
  judge raw uuid now =
      let req = authority_request setting raw in
      let f = frame_of setting req in
      let m = model setting.numbers setting.detectors req f setting.policy in
      let log =
        log_of setting req (normalize_for_detection setting.nfkc raw.content) m
          (first_commit req f m) now in
      check log.commit.decision log (build_command setting req log uuid) now

  unfoldable pub decide_healthy :
      ControllerState Num
      → InboundRequest
      → String
      → ℕ
      → Result String (Decided Num × ControllerState Num)
  decide_healthy st raw uuid now = judge raw uuid now >>= λ judged.
      settle judged.0.commit.decision st (authority_request setting raw) judged.0 judged.1 now

  unfoldable pub decide :
      ControllerState Num
      → BoundaryResult
      → String
      → ℕ
      → Result String (Decided Num × ControllerState Num)
  decide st (invalid reason issue_count) uuid now =
      let log = boundary_log setting reason issue_count now in
      ok (
        record { log = log; command = none; request = fallback_request now },
        suspend_fail_safe setting st (fallback_request now) log none now,
      )
  decide st (valid req) uuid now =
      let health = evaluate_self_health setting st now in
      let log = fail_safe_log setting req health now in
      if health.fail_safe
      then ok (
        record { log = log; command = none; request = authority_request setting req },
        suspend_fail_safe setting st (authority_request setting req) log (some health) now,
      )
      else decide_healthy st req uuid now
