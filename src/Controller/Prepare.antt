-- ===== src/Controller/Prepare.antt =====
-- controller.ts: what `decide` and `resume` put together: self-health, the logs of the paths that fail
-- safe, and the state after them.
use blue_tanuki.Base.{
  ℕ, String, Bool, true, false, not, Option, none, some, List, [], ◌∷◌, ◌==◌, map, length, or_else,
  if◌then◌else◌, Result, ok, thrown,
}
use blue_tanuki.Base.Text.{◌<>◌, join}
use blue_tanuki.Base.Trim.{trim}
use blue_tanuki.Base.Dict.{put}
use blue_tanuki.Base.Json.{Json, Fields}
use blue_tanuki.Protocol.{Decision, ExecuteCommand}
use blue_tanuki.Audit.{AuditLog, append, verify}
use blue_tanuki.Boundary.{precondition_name}
use blue_tanuki.Process.Types.{InboundRequest, FrameResult}
use blue_tanuki.Process.Frame.{frame}
use blue_tanuki.Normalization.{DetectionNormalization, normalize_for_detection}
use blue_tanuki.Health.Types.{HdsBrainHealth, HdsBrainHealthStatus}
use blue_tanuki.Health.{evaluate_hds_brain_health}
use blue_tanuki.Policy.Types.{detector_lifecycle_ok, ModelResult, CommitResult}
use blue_tanuki.Policy.Validate.{validate_policy}
use blue_tanuki.Controller.Types.{
  ControllerPhase, ControllerState, DecisionLog, AuditRecord, CapturedMemoryReference,
  ResumeVerdict, Setting,
}
use blue_tanuki.Controller.Command.{texts, suspend_commit}

-- What `parseInboundRequestAtBoundary` answers: a request, or a reason with the number of issues.
pub data BoundaryResult : Type 0 where
  valid : InboundRequest → BoundaryResult
  invalid : (reason : String) → (issue_count : ℕ) → BoundaryResult

-- What `decide` and `resume` return; `request` is the originating request.
pub record Decided (Num : Type 0) : Type 0 where
  pub log : DecisionLog Num
  pub command : Option ExecuteCommand
  pub request : InboundRequest

abbrev pub fallback_request : ℕ → InboundRequest
fallback_request now = record {
  id = "invalid-inbound-boundary";
  channel = "invalid";
  user = "unknown";
  content = "Invalid inbound request rejected at authority boundary";
  timestamp = now;
  metadata = none;
}

abbrev health_name : HdsBrainHealthStatus → String
health_name HdsBrainHealthStatus.ok = "ok"
health_name HdsBrainHealthStatus.fail_safe = "fail_safe"

abbrev pub verdict_name : ResumeVerdict → String
verdict_name ResumeVerdict.approve = "approve"
verdict_name ResumeVerdict.reject = "reject"
verdict_name ResumeVerdict.block = "block"

-- the effective decision of a verdict
abbrev pub lifted : ResumeVerdict → Decision
lifted ResumeVerdict.approve = Decision.assert
lifted ResumeVerdict.reject = Decision.fail
lifted ResumeVerdict.block = Decision.out_of_scope

abbrev pub is_denied : Option Bool → Bool
is_denied (some false) = true
is_denied _ = false

abbrev is_valid_policy : {E : Type 0} → Result E Unit → Bool
is_valid_policy (ok _) = true
is_valid_policy (thrown _) = false

abbrev pub failed_texts : HdsBrainHealth → List String
failed_texts health =
    map (λ p. "hds_fail_safe:" <> precondition_name p <> "=false") health.failed_preconditions

-- `opts.actor?.trim() || fallback`
abbrev pub actor_or : String → Option String → String
actor_or fallback none = fallback
actor_or fallback (some s) = if trim s == "" then fallback else trim s

module _ {Num : Type 0} (setting : Setting Num) where
  -- `this.audit.append(record)`
  unfoldable pub record_in :
      AuditLog (AuditRecord Num) → AuditRecord Num → AuditLog (AuditRecord Num)
  record_in audit r = (append setting.sha256 setting.stringify setting.stringify_entry audit r).1

  unfoldable pub evaluate_self_health : ControllerState Num → ℕ → HdsBrainHealth
  evaluate_self_health st now =
      let opts = setting.self_health in
      evaluate_hds_brain_health setting.digest_report setting.process now
        (record {
          audit_entries = length st.audit.entries;
          audit_chain_valid = verify setting.sha256 setting.stringify st.audit;
          memory_configured = setting.memory.configured;
          memory_chain_valid = setting.memory.chain_valid;
          invariants = setting.runtime_invariants.body.values;
          runtime_invariants = setting.runtime_invariants;
        })
        (record {
          hds_available = opts.hds_available;
          policy_valid = some (
              or_else opts.policy_valid
                (is_valid_policy (validate_policy setting.numbers setting.policy)));
          approval_gate_available = opts.approval_gate_available;
          required_directories = opts.required_directories;
          storage_paths = opts.storage_paths;
          optional_dependencies = opts.optional_dependencies;
          audit_appendable = opts.audit_appendable;
        })

  unfoldable pub record_captured :
      AuditLog (AuditRecord Num)
      → DecisionLog Num
      → ℕ
      → Option CapturedMemoryReference
      → AuditLog (AuditRecord Num)
  record_captured audit log now none = audit
  record_captured audit log now (some captured) = record_in audit (
      AuditRecord.memory_reference (record {
        request_id = log.request_id;
        memory_id = captured.request_id;
        f_reference = or_else captured.f_reference ("F:" <> captured.request_id);
        entry_hash = captured.entry_hash;
        goal = log.frame.goal;
        problem_definition_id = log.frame.problem_definition_id;
        abstraction = log.model.abstraction;
        timestamp = now;
      }))

  -- `captureMemoryReference`, where the memory may answer with a reference
  unfoldable pub capture_memory_reference :
      AuditLog (AuditRecord Num) → DecisionLog Num → ℕ → AuditLog (AuditRecord Num)
  capture_memory_reference audit log now = record_captured audit log now (setting.capture log)

  -- a model with one axis, as the two fail-safe paths write it
  abbrev single_axis : String → String → Bool → String → String → String → ModelResult Num
  single_axis abstraction axis good detector evidence reason =
      let score = if good then setting.numbers.literal 100 else setting.numbers.literal 0 in
      record {
        abstraction = abstraction;
        scoring = record {
          axis_scores =
              record {
                axis = axis;
                score = score;
                detector = detector;
                evidence = some evidence;
                lifecycle = detector_lifecycle_ok reason;
              }
              ∷ [];
          weights = (axis, setting.numbers.literal 100) ∷ [];
          aggregate = score;
        };
      }

  unfoldable pub self_health_model : HdsBrainHealth → ModelResult Num
  self_health_model health =
      single_axis ("self_health:" <> health_name health.status) "self_health" (not health.fail_safe)
        "hds_self_health" health.fail_safe_reason "self_health_evaluated"

  unfoldable pub frame_of : InboundRequest → FrameResult
  frame_of req = frame setting.lower setting.memory_reader req setting.policy.problem_definition_id

  -- The state after a suspension that no human may lift.
  abbrev pub suspend_fail_safe :
      ControllerState Num
      → InboundRequest
      → DecisionLog Num
      → Option HdsBrainHealth
      → ℕ
      → ControllerState Num
  suspend_fail_safe st req log health now = record {
    phase = ControllerPhase.suspended;
    audit = record_in st.audit (AuditRecord.decision log);
    inflight = st.inflight;
    suspended = put st.suspended req.id (record {
      request_id = req.id;
      log = log;
      suspended_at = now;
      reason = log.commit.reason;
      fail_safe = some true;
      resume_allowed = some false;
      self_health = health;
    });
    suspended_requests = put st.suspended_requests req.id req;
  }

  abbrev pub log_of :
      InboundRequest → DetectionNormalization → ModelResult Num → CommitResult → ℕ → DecisionLog Num
  log_of req input m c now = record {
    request_id = req.id;
    input = some input;
    resume = none;
    frame = frame_of req;
    model = m;
    commit = c;
    timestamp = now;
  }

  unfoldable pub boundary_log : String → ℕ → ℕ → DecisionLog Num
  boundary_log reason issue_count now =
      let req = fallback_request now in
      log_of req (normalize_for_detection setting.nfkc req.content)
        (single_axis "authority_input_boundary:invalid" "authority_input_boundary" false
          "strict_inbound_request_schema" reason "boundary_validation_failed_closed")
        (suspend_commit setting.digest_json "authority_input_boundary" reason
          (Fields.field "request_id" (Json.str req.id)
            (Fields.field "issue_count" (Json.num issue_count) Fields.end))
          ("authority_input_boundary:suspend" ∷ ("authority_input_boundary:" <> reason) ∷ []))
        now

  -- `reason.slice("hds_fail_safe:".length)` of a reason that has the prefix: every reason of an
  -- unhealthy evaluation is the prefix, "suspend:" and the names.
  abbrev fail_safe_reason : HdsBrainHealth → String
  fail_safe_reason health =
      "suspend:" <> join "," (map precondition_name health.failed_preconditions)

  -- the request with its normalised content
  abbrev pub authority_request : InboundRequest → InboundRequest
  authority_request req = record {
    id = req.id;
    channel = req.channel;
    user = req.user;
    content = (normalize_for_detection setting.nfkc req.content).normalized_content;
    timestamp = req.timestamp;
    metadata = req.metadata;
  }

  unfoldable pub fail_safe_log : InboundRequest → HdsBrainHealth → ℕ → DecisionLog Num
  fail_safe_log req health now =
      log_of (authority_request req) (normalize_for_detection setting.nfkc req.content)
        (self_health_model health)
        (suspend_commit setting.digest_json "hds_fail_safe" (fail_safe_reason health)
          (Fields.field "request_id" (Json.str req.id) (
            Fields.field "failed_preconditions"
              (Json.arr (texts (map precondition_name health.failed_preconditions)))
              (Fields.field "command_execution_allowed" (Json.bool health.command_execution_allowed)
                (Fields.field "downstream_execution_allowed"
                  (Json.bool health.downstream_execution_allowed) Fields.end))))
          ("hds_fail_safe:suspend" ∷ failed_texts health))
        now
