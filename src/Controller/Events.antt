-- ===== src/Controller/Events.antt =====
-- controller.ts: the events after a decision, and all operations as steps of one machine.
use blue_tanuki.Base.{
  ℕ, String, Bool, true, false, Option, none, some, is_some, or_else, if◌then◌else◌, Result, ok,
  thrown,
}
use blue_tanuki.Base.Dict.{Dict, get, remove}
use blue_tanuki.Approval.Types.{Verdict, ApprovalEvaluation}
use blue_tanuki.Health.Invariants.{RuntimeInvariantEvidenceReport}
use blue_tanuki.Controller.Types.{
  ControllerState, DecisionLog, AuditRecord, CommandLifecyclePhase, AuthorityEventKind,
  ExecuteFeedback, ScheduleLifecycleLog, ResumeVerdict, Setting,
}
use blue_tanuki.Controller.Prepare.{BoundaryResult, Decided, actor_or, record_in}
use blue_tanuki.Controller.Machine.{decide}
use blue_tanuki.Controller.Resume.{resume}

abbrev pub phase_name : CommandLifecyclePhase → String
phase_name CommandLifecyclePhase.approval_pending = "approval_pending"
phase_name CommandLifecyclePhase.approval_approved = "approval_approved"
phase_name CommandLifecyclePhase.approval_rejected = "approval_rejected"
phase_name CommandLifecyclePhase.approval_cancelled = "approval_cancelled"

abbrev pub event_name : AuthorityEventKind → String
event_name AuthorityEventKind.grant_created = "grant_created"
event_name AuthorityEventKind.grant_used = "grant_used"
event_name AuthorityEventKind.grant_revoked = "grant_revoked"
event_name AuthorityEventKind.grant_expired = "grant_expired"
event_name AuthorityEventKind.approval_asked = "approval_asked"
event_name AuthorityEventKind.approval_allowed = "approval_allowed"
event_name AuthorityEventKind.approval_denied = "approval_denied"

abbrev event_of : Verdict → AuthorityEventKind
event_of Verdict.allow = AuthorityEventKind.approval_allowed
event_of Verdict.deny = AuthorityEventKind.approval_denied
event_of Verdict.ask = AuthorityEventKind.approval_asked

pub record AuthorityEventOptions : Type 0 where
  pub request_id : Option String
  pub command_id : Option String
  pub grant_id : Option String
  pub actor : Option String
  pub reason : Option String
  pub evaluation : Option ApprovalEvaluation

abbrev pub drops_command : CommandLifecyclePhase → Bool
drops_command CommandLifecyclePhase.approval_rejected = true
drops_command CommandLifecyclePhase.approval_cancelled = true
drops_command _ = false

abbrev optional : {A B : Type 0} → (A → B) → Option A → Option B
optional f none = none
optional f (some a) = some (f a)

module _ {Num : Type 0} (setting : Setting Num) where
  abbrev with_record :
      ControllerState Num → AuditRecord Num → Dict (DecisionLog Num) → ControllerState Num
  with_record st r inflight = record {
    phase = st.phase;
    audit = record_in setting st.audit r;
    inflight = inflight;
    suspended = st.suspended;
    suspended_requests = st.suspended_requests;
  }

  unfoldable pub on_authority_event :
      ControllerState Num → AuthorityEventKind → AuthorityEventOptions → ℕ → ControllerState Num
  on_authority_event st event opts now =
      with_record st
        (AuditRecord.authority_event (record {
          event = event;
          request_id = opts.request_id;
          command_id = opts.command_id;
          grant_id = opts.grant_id;
          actor = actor_or "system" opts.actor;
          reason = or_else opts.reason (event_name event);
          operation = optional (λ e. e.context.operation) opts.evaluation;
          target_scope = optional (λ e. e.context.target_scope) opts.evaluation;
          risk = optional (λ e. e.risk) opts.evaluation;
          authority_trace = optional (λ e. e.authority_trace) opts.evaluation;
          timestamp = now;
        }))
        st.inflight

  -- `opts.request_id ?? inflight.get(id)?.request_id ?? null`
  abbrev request_of : ControllerState Num → Option String → String → Option String
  request_of st (some id) command_id = some id
  request_of st none command_id = optional (λ log. log.request_id) (get st.inflight command_id)

  unfoldable pub on_approval_evaluation :
      ControllerState Num → ApprovalEvaluation → Option String → ℕ → ControllerState Num
  on_approval_evaluation st evaluation request_id now =
      let id = request_of st request_id evaluation.context.command_id in
      on_authority_event
        (with_record st
          (AuditRecord.approval_gate (record {
            request_id = id;
            command_id = evaluation.context.command_id;
            upstream_commit_hash = evaluation.context.upstream_commit_hash;
            evaluation = evaluation;
            timestamp = now;
          }))
          st.inflight)
        (event_of evaluation.decision)
        (record {
          request_id = id;
          command_id = some evaluation.context.command_id;
          grant_id = evaluation.matched_grant_id;
          actor = some evaluation.context.actor;
          reason = some evaluation.reason;
          evaluation = some evaluation;
        })
        now

  unfoldable pub on_command_lifecycle :
      ControllerState Num
      → String
      → CommandLifecyclePhase
      → Option String
      → Option String
      → ℕ
      → ControllerState Num
  on_command_lifecycle st command_id phase actor reason now =
      let source = get st.inflight command_id in
      with_record st
        (AuditRecord.command_lifecycle (record {
          phase = phase;
          request_id = optional (λ log. log.request_id) source;
          command_id = command_id;
          upstream_commit_hash = optional (λ log. log.commit.hash) source;
          upstream_decision = optional (λ log. log.commit.decision) source;
          actor = actor_or "system" actor;
          reason = or_else reason (phase_name phase);
          timestamp = now;
        }))
        (if drops_command phase then remove st.inflight command_id else st.inflight)

  -- The options of a schedule event are all fields of the log but its time.
  unfoldable pub on_schedule_lifecycle :
      ControllerState Num → ScheduleLifecycleLog → ControllerState Num
  on_schedule_lifecycle st log = with_record st (AuditRecord.schedule_lifecycle log) st.inflight

  unfoldable pub on_feedback : ControllerState Num → ExecuteFeedback → ℕ → ControllerState Num
  on_feedback st fb now =
      let source = get st.inflight fb.command_id in
      with_record st
        (AuditRecord.executor_feedback (record {
          request_id = optional (λ log. log.request_id) source;
          command_id = fb.command_id;
          upstream_commit_hash = optional (λ log. log.commit.hash) source;
          upstream_decision = optional (λ log. log.commit.decision) source;
          known_command = is_some source;
          status = fb.status;
          result_present = is_some fb.result;
          result_digest = optional setting.digest_json fb.result;
          error = fb.error;
          metrics = fb.metrics;
          timestamp = now;
        }))
        (if is_some source then remove st.inflight fb.command_id else st.inflight)

  -- with the report given by the caller
  unfoldable pub on_runtime_invariants_evidence :
      ControllerState Num
      → RuntimeInvariantEvidenceReport
      → Option String
      → Option String
      → ℕ
      → ControllerState Num
  on_runtime_invariants_evidence st report request_id reason now =
      with_record st
        (AuditRecord.runtime_invariants (record {
          request_id = request_id;
          report = report;
          reason = or_else reason "runtime_invariants_evidence";
          timestamp = now;
        }))
        st.inflight

-- What downstream components, the approval gate and the scheduler tell the controller.
pub data DownstreamEvent : Type 0 where
  feedback : ExecuteFeedback → DownstreamEvent
  approval : ApprovalEvaluation → Option String → DownstreamEvent
  authority : AuthorityEventKind → AuthorityEventOptions → DownstreamEvent
  lifecycle : String → CommandLifecyclePhase → Option String → Option String → DownstreamEvent
  schedule : ScheduleLifecycleLog → DownstreamEvent
  invariants : RuntimeInvariantEvidenceReport → Option String → Option String → DownstreamEvent

-- Everything that calls the controller.
pub data ControllerEvent : Type 0 where
  inbound : BoundaryResult → ControllerEvent
  verdict : String → ResumeVerdict → Option String → ControllerEvent
  downstream : DownstreamEvent → ControllerEvent

module _ {Num : Type 0} (setting : Setting Num) where
  unfoldable pub on_downstream : ControllerState Num → DownstreamEvent → ℕ → ControllerState Num
  on_downstream st (feedback fb) now = on_feedback setting st fb now
  on_downstream st (approval evaluation request_id) now =
      on_approval_evaluation setting st evaluation request_id now
  on_downstream st (authority event opts) now = on_authority_event setting st event opts now
  on_downstream st (lifecycle id phase actor reason) now =
      on_command_lifecycle setting st id phase actor reason now
  on_downstream st (schedule log) now = on_schedule_lifecycle setting st log
  on_downstream st (invariants report request_id reason) now =
      on_runtime_invariants_evidence setting st report request_id reason now

  -- a call of `decide` that throws leaves the state as it was
  abbrev pub state_after :
      ControllerState Num → Result String (Decided Num × ControllerState Num) → ControllerState Num
  state_after st (ok (_, next)) = next
  state_after st (thrown _) = st

  unfoldable pub step : ControllerState Num → ControllerEvent → String → ℕ → ControllerState Num
  step st (inbound raw) uuid now = state_after st (decide setting st raw uuid now)
  step st (verdict request_id v actor) uuid now = (resume setting st request_id v actor uuid now).1
  step st (downstream event) uuid now = on_downstream st event now
