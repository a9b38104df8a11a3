-- ===== src/Controller/Resume.antt =====
-- controller.ts: `resume`, the human verdict on a suspended request. A call that throws gives its state too.
use blue_tanuki.Base.{
  ℕ, String, ◌||◌, Option, none, some, [], ◌∷◌, ◌++◌, if◌then◌else◌, Result, ok, thrown,
}
use blue_tanuki.Base.Text.{◌<>◌}
use blue_tanuki.Base.Dict.{Dict, get, put, remove}
use blue_tanuki.Base.Json.{Json, Fields}
use blue_tanuki.Protocol.{Decision, ExecuteCommand}
use blue_tanuki.Audit.{AuditLog}
use blue_tanuki.Process.Types.{InboundRequest}
use blue_tanuki.Health.Types.{HdsBrainHealth}
use blue_tanuki.Controller.Types.{
  ControllerPhase, ControllerState, DecisionLog, SuspendedRequest, AuditRecord, ResumeVerdict,
  Setting,
}
use blue_tanuki.Controller.Command.{build_command}
use blue_tanuki.Controller.Prepare.{
  Decided, verdict_name, lifted, is_denied, failed_texts, actor_or, record_in, evaluate_self_health,
  capture_memory_reference, self_health_model,
}

abbrev decision_name : ResumeVerdict → String
decision_name ResumeVerdict.approve = "ASSERT"
decision_name ResumeVerdict.reject = "FAIL"
decision_name ResumeVerdict.block = "OUT_OF_SCOPE"

module _ {Num : Type 0} (setting : Setting Num) where
  -- the log of a verdict that is refused
  unfoldable pub refused_log :
      SuspendedRequest Num → HdsBrainHealth → ResumeVerdict → Option String → ℕ → DecisionLog Num
  refused_log susp health verdict actor now = record {
    request_id = susp.request_id;
    input = susp.log.input;
    resume = some (record { verdict = verdict; actor = actor_or "unknown" actor });
    frame = susp.log.frame;
    model = self_health_model setting health;
    commit = record {
      decision = Decision.suspend;
      reason =
          if is_denied susp.resume_allowed
          then "human_resume_denied:fail_safe (was SUSPEND: " <> susp.reason <> ")"
          else "human_resume_denied:self_health_fail_safe:" <> health.fail_safe_reason;
      hash = setting.digest_json (
          Json.obj (
            Fields.field "kind" (Json.str "human_resume_denied") (
              Fields.field "previous_commit_hash" (Json.str susp.log.commit.hash) (
                Fields.field "request_id" (Json.str susp.request_id) (
                  Fields.field "verdict" (Json.str (verdict_name verdict)) (
                    Fields.field "actor" (Json.str (actor_or "unknown" actor)) (
                      Fields.field "token_kind" (Json.str "resume") (
                        Fields.field "suspended_reason" (Json.str susp.reason) (
                          Fields.field "self_health" (setting.health_json health)
                            Fields.end)))))))));
      triggered_thresholds =
          susp.log.commit.triggered_thresholds
          ++ "human_resume_denied:fail_safe" ∷ failed_texts health;
    };
    timestamp = now;
  }

  unfoldable pub resume_log :
      SuspendedRequest Num → ResumeVerdict → Option String → ℕ → DecisionLog Num
  resume_log susp verdict actor now = record {
    request_id = susp.request_id;
    input = susp.log.input;
    resume = some (record { verdict = verdict; actor = actor_or "unknown" actor });
    frame = susp.log.frame;
    model = susp.log.model;
    commit = record {
      decision = lifted verdict;
      reason = "human_resume:" <> verdict_name verdict <> " (was SUSPEND: " <> susp.reason <> ")";
      hash = setting.digest_json (
          Json.obj (
            Fields.field "kind" (Json.str "human_resume") (
              Fields.field "previous_commit_hash" (Json.str susp.log.commit.hash) (
                Fields.field "request_id" (Json.str susp.request_id) (
                  Fields.field "verdict" (Json.str (verdict_name verdict)) (
                    Fields.field "actor" (Json.str (actor_or "unknown" actor)) (
                      Fields.field "token_kind" (Json.str "resume") (
                        Fields.field "effective_decision" (Json.str (decision_name verdict)) (
                          Fields.field "suspended_reason" (Json.str susp.reason)
                            (Fields.field "timestamp" (Json.num now) Fields.end))))))))));
      triggered_thresholds =
          susp.log.commit.triggered_thresholds ++ ("human_resume:" <> verdict_name verdict) ∷ [];
    };
    timestamp = now;
  }

  -- the state after a verdict that is carried out, its audit and inflight commands given
  abbrev pub lifted_state :
      ControllerState Num
      → String
      → AuditLog (AuditRecord Num)
      → Dict (DecisionLog Num)
      → ControllerState Num
  lifted_state st request_id audit inflight = record {
    phase = ControllerPhase.decided;
    audit = audit;
    inflight = inflight;
    suspended = remove st.suspended request_id;
    suspended_requests = remove st.suspended_requests request_id;
  }

  -- The command of an approval is built last: where the router throws, the log is recorded and the
  -- suspension is gone already.
  unfoldable pub finish_approval :
      Result String ExecuteCommand
      → DecisionLog Num
      → InboundRequest
      → ControllerState Num
      → Result String (Decided Num) × ControllerState Num
  finish_approval (thrown e) log req next = (thrown e, next)
  finish_approval (ok command) log req next = (
    ok (record { log = log; command = some command; request = req }),
    record next { inflight = put next.inflight command.id log },
  )

  unfoldable pub carry_out :
      ControllerState Num
      → String
      → SuspendedRequest Num
      → InboundRequest
      → ResumeVerdict
      → Option String
      → String
      → ℕ
      → Result String (Decided Num) × ControllerState Num
  carry_out st request_id susp req ResumeVerdict.approve actor uuid now =
      let log = resume_log susp ResumeVerdict.approve actor now in
      finish_approval (build_command setting req log uuid) log req (
        lifted_state st request_id
          (capture_memory_reference setting (record_in setting st.audit (AuditRecord.decision log))
            log now)
          st.inflight)
  carry_out st request_id susp req verdict actor uuid now =
      let log = resume_log susp verdict actor now in
      (
        ok (record { log = log; command = none; request = req }),
        lifted_state st request_id (record_in setting st.audit (AuditRecord.decision log))
            st.inflight,
      )

  unfoldable pub refuse :
      ControllerState Num
      → SuspendedRequest Num
      → InboundRequest
      → HdsBrainHealth
      → ResumeVerdict
      → Option String
      → ℕ
      → Result String (Decided Num) × ControllerState Num
  refuse st susp req health verdict actor now =
      let log = refused_log susp health verdict actor now in
      (
        ok (record { log = log; command = none; request = req }),
        record {
          phase = ControllerPhase.suspended;
          audit = record_in setting st.audit (AuditRecord.decision log);
          inflight = st.inflight;
          suspended = st.suspended;
          suspended_requests = st.suspended_requests;
        },
      )

  unfoldable pub resume_found :
      ControllerState Num
      → String
      → Option (SuspendedRequest Num)
      → Option InboundRequest
      → ResumeVerdict
      → Option String
      → String
      → ℕ
      → Result String (Decided Num) × ControllerState Num
  resume_found st request_id none req verdict actor uuid now =
      (thrown ("resume: no suspended request with id=" <> request_id), st)
  resume_found st request_id (some susp) none verdict actor uuid now =
      (thrown ("resume: no suspended request with id=" <> request_id), st)
  resume_found st request_id (some susp) (some req) verdict actor uuid now =
      let health = evaluate_self_health setting st now in
      if is_denied susp.resume_allowed || health.fail_safe
      then refuse st susp req health verdict actor now
      else carry_out st request_id susp req verdict actor uuid now

  unfoldable pub resume :
      ControllerState Num
      → String
      → ResumeVerdict
      → Option String
      → String
      → ℕ
      → Result String (Decided Num) × ControllerState Num
  resume st request_id verdict actor uuid now =
      resume_found st request_id (get st.suspended request_id)
        (get st.suspended_requests request_id) verdict actor uuid now
