-- ===== src/Controller/Types.antt =====
-- The state, logs and audit records of packages/hds-brain/src/controller.ts and types.ts, and what a
-- controller is built with. The audit record of a released output and the read record of a memory
-- reference are not modelled.
use blue_tanuki.Base.{ℕ, String, Bool, Option, Result}
use blue_tanuki.Base.Dict.{Dict}
use blue_tanuki.Base.Json.{Json}
use blue_tanuki.Protocol.{Decision}
use blue_tanuki.Approval.Types.{ApprovalEvaluation, Operation, Scope, Risk, Level, AuthorityTrace}
use blue_tanuki.Process.Types.{InboundRequest, FrameResult, ActorRef}
use blue_tanuki.Memory.Trace.{MemoryReader}
use blue_tanuki.Policy.Types.{Numbers, PolicyConfig, ModelResult, CommitResult, ScoringResult}
use blue_tanuki.Policy.Decide.{DecisionVerdict}
use blue_tanuki.Policy.Registry.{DetectorRegistry}
use blue_tanuki.Normalization.{DetectionNormalization}
use blue_tanuki.Health.Invariants.{RuntimeInvariantEvidenceReport, ReportBody}
use blue_tanuki.Health.Types.{HdsBrainHealth, HdsBrainHealthOptions, ProcessTelemetry}
use blue_tanuki.Audit.{AuditLog, AuditEntry}

pub data ControllerPhase : Type 0 where
  idle decided suspended awaiting_resume : ControllerPhase

pub data ResumeVerdict : Type 0 where
  approve reject block : ResumeVerdict

-- `token_kind` is the literal "resume".
pub record ResumeAuditTrace : Type 0 where
  pub verdict : ResumeVerdict
  pub actor : String

pub record DecisionLog (Num : Type 0) : Type 0 where
  pub request_id : String
  pub input : Option DetectionNormalization
  pub resume : Option ResumeAuditTrace
  pub frame : FrameResult
  pub model : ModelResult Num
  pub commit : CommitResult
  pub timestamp : ℕ

pub record SuspendedRequest (Num : Type 0) : Type 0 where
  pub request_id : String
  pub log : DecisionLog Num
  pub suspended_at : ℕ
  pub reason : String
  pub fail_safe : Option Bool
  pub resume_allowed : Option Bool
  pub self_health : Option HdsBrainHealth

pub data CommandLifecyclePhase : Type 0 where
  approval_pending approval_approved approval_rejected approval_cancelled : CommandLifecyclePhase

pub data AuthorityEventKind : Type 0 where
  grant_created grant_used grant_revoked grant_expired approval_asked approval_allowed
        approval_denied :
      AuthorityEventKind

pub data FeedbackStatus : Type 0 where
  success failed suspended : FeedbackStatus

pub record ExecuteMetrics : Type 0 where
  pub duration_ms : ℕ
  pub tokens_used : Option ℕ
  pub tool_calls : Option ℕ

pub record ExecuteFeedback : Type 0 where
  pub command_id : String
  pub status : FeedbackStatus
  pub result : Option Json
  pub error : Option String
  pub metrics : ExecuteMetrics

pub record ExecutorFeedbackLog : Type 0 where
  pub request_id : Option String
  pub command_id : String
  pub upstream_commit_hash : Option String
  pub upstream_decision : Option Decision
  pub known_command : Bool
  pub status : FeedbackStatus
  pub result_present : Bool
  pub result_digest : Option String
  pub error : Option String
  pub metrics : ExecuteMetrics
  pub timestamp : ℕ

pub record ApprovalGateLog : Type 0 where
  pub request_id : Option String
  pub command_id : String
  pub upstream_commit_hash : String
  pub evaluation : ApprovalEvaluation
  pub timestamp : ℕ

pub record AuthorityEventLog : Type 0 where
  pub event : AuthorityEventKind
  pub request_id : Option String
  pub command_id : Option String
  pub grant_id : Option String
  pub actor : String
  pub reason : String
  pub operation : Option Operation
  pub target_scope : Option Scope
  pub risk : Option Risk
  pub authority_trace : Option AuthorityTrace
  pub timestamp : ℕ

pub record CommandLifecycleLog : Type 0 where
  pub phase : CommandLifecyclePhase
  pub request_id : Option String
  pub command_id : String
  pub upstream_commit_hash : Option String
  pub upstream_decision : Option Decision
  pub actor : String
  pub reason : String
  pub timestamp : ℕ

pub data ScheduleLifecycleEvent : Type 0 where
  requested approved rejected activated updated deleted fired : ScheduleLifecycleEvent

pub record ScheduleLifecycleLog : Type 0 where
  pub event : ScheduleLifecycleEvent
  pub schedule_id : String
  pub from_boot : Bool
  pub operation : String
  pub actor : String
  pub approval_level : Option Level
  pub risk : Option Risk
  pub payload_hash : Option String
  pub previous_payload_hash : Option String
  pub command_id : Option String
  pub request_id : Option String
  pub timestamp : ℕ

pub record MemoryReferenceLog : Type 0 where
  pub request_id : String
  pub memory_id : String
  pub f_reference : String
  pub entry_hash : String
  pub goal : String
  pub problem_definition_id : String
  pub abstraction : String
  pub timestamp : ℕ

pub record RuntimeInvariantsLog : Type 0 where
  pub request_id : Option String
  pub report : RuntimeInvariantEvidenceReport
  pub reason : String
  pub timestamp : ℕ

pub data AuditRecord (Num : Type 0) : Type 0 where
  decision : DecisionLog Num → AuditRecord Num
  executor_feedback : ExecutorFeedbackLog → AuditRecord Num
  approval_gate : ApprovalGateLog → AuditRecord Num
  authority_event : AuthorityEventLog → AuditRecord Num
  command_lifecycle : CommandLifecycleLog → AuditRecord Num
  schedule_lifecycle : ScheduleLifecycleLog → AuditRecord Num
  memory_reference : MemoryReferenceLog → AuditRecord Num
  runtime_invariants : RuntimeInvariantsLog → AuditRecord Num

-- The fields of HDSUpperController that change.
pub record ControllerState (Num : Type 0) : Type 0 where
  pub phase : ControllerPhase
  pub audit : AuditLog (AuditRecord Num)
  pub inflight : Dict (DecisionLog Num)
  pub suspended : Dict (SuspendedRequest Num)
  pub suspended_requests : Dict InboundRequest

-- `temperature` is in hundredths.
pub record LlmCommandRoute : Type 0 where
  pub backend_hint : Option String
  pub model : Option String
  pub temperature : Option ℕ
  pub max_tokens : Option ℕ
  pub timeout_ms : Option ℕ

pub record CapturedMemoryReference : Type 0 where
  pub request_id : String
  pub f_reference : Option String
  pub entry_hash : String

-- The state of the memory port when it is read: none where `verify` is missing.
pub record MemoryStatus : Type 0 where
  pub configured : Bool
  pub chain_valid : Option Bool

-- What the controller is constructed with and what it calls: the policy, detectors and LLM route, the
-- digests and serialisations (`health_json` and `actor_json` give an object as the JSON value of it),
-- the text functions and the JSON parser of the runtime, and the memory.
pub record Setting (Num : Type 0) : Type 0 where
  pub numbers : Numbers Num
  pub policy : PolicyConfig Num
  pub detectors : DetectorRegistry Num
  pub llm_route : LlmCommandRoute
  pub self_health : HdsBrainHealthOptions
  pub runtime_invariants : RuntimeInvariantEvidenceReport
  pub process : ProcessTelemetry
  pub sha256 : String → String
  pub stringify : AuditRecord Num → String
  pub stringify_entry : AuditEntry (AuditRecord Num) → String
  pub digest_json : Json → String
  pub health_json : HdsBrainHealth → Json
  pub actor_json : ActorRef → Json
  pub digest_scoring : ScoringResult Num → DecisionVerdict → String
  pub digest_report : ReportBody → String
  pub nfkc : String → String
  pub lower : String → String
  pub memory_reader : Option MemoryReader
  pub memory : MemoryStatus
  pub capture : DecisionLog Num → Option CapturedMemoryReference
  pub to_upper : String → String
  pub parse_json : String → Result String Json
