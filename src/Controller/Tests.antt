-- ===== src/Controller/Tests.antt =====
-- A controller with one axis in its policy, a web chat request, a held and an ordinary suspension.
use blue_tanuki.Base.{
  ℕ, String, ◌≡◌, ◌⊎◌, inl, refl, Bool, true, false, Option, none, some, List, [], ◌∷◌, ok, thrown,
}
use blue_tanuki.Base.Dict.{get}
use blue_tanuki.Base.Json.{Json}
use blue_tanuki.Base.Text.{◌<>◌, show}
use blue_tanuki.Protocol.{Decision, ExecuteCommand}
use blue_tanuki.Audit.{AuditLog, verify, verify_from}
use blue_tanuki.Audit.Chain.{empty_log}
use blue_tanuki.Process.Types.{InboundRequest}
use blue_tanuki.Approval.Types.{Operation-discrete}
use blue_tanuki.Approval.Operation.{is_among}
use blue_tanuki.Boundary.{evaluate_fail_safe_boundary, failed_of}
use blue_tanuki.Health.Invariants.{
  ReportBody, build_runtime_invariant_evidence, values_of, final_review_boundary_present, distinct,
  runtime_invariant_values_ok, runtime_invariant_report_ok,
}
use blue_tanuki.Health.{evaluate_hds_brain_health, runtime_ok}
use blue_tanuki.Policy.Tests.{hundredths, registry, policy}
use blue_tanuki.Policy.Validate.{validate_policy, validate_axes}
use blue_tanuki.Controller.Types.{
  ControllerState, ControllerPhase, SuspendedRequest, AuditRecord, ResumeVerdict,
  CommandLifecyclePhase, FeedbackStatus, Setting,
}
use blue_tanuki.Controller.Prepare.{valid, invalid, Decided, evaluate_self_health, boundary_log}
use blue_tanuki.Controller.Machine.{decide}
use blue_tanuki.Controller.Resume.{resume}
use blue_tanuki.Controller.Events.{DownstreamEvent, inbound, verdict, feedback, lifecycle, step}
use blue_tanuki.Controller.Emission.{IsSilent, IsEmission, RouterThrows, decide-total}
use blue_tanuki.Controller.FailSafe.{
  IsHeld, IsResult, decide-fail_safe, evaluate_self_health-tampered, decide-tampered, resume-denied,
  resume-lifted,
}
use blue_tanuki.Controller.Reachable.{
  start, after, NoGain, run_downstream, Reachable-IsWellFormed, run_downstream-NoGain,
}
use blue_tanuki.Controller.Invariant.{IsWellFormed}

abbrev digest_report : ReportBody → String
digest_report body = "report"

unfoldable pub setting : Setting ℕ
setting = record {
  numbers = hundredths;
  policy = policy;
  detectors = registry;
  llm_route = record {
    backend_hint = none;
    model = none;
    temperature = none;
    max_tokens = none;
    timeout_ms = none;
  };
  self_health = record {
    hds_available = none;
    policy_valid = none;
    approval_gate_available = none;
    required_directories = none;
    storage_paths = none;
    optional_dependencies = none;
    audit_appendable = none;
  };
  runtime_invariants = build_runtime_invariant_evidence digest_report 0 (λ _. none);
  process = record { uptime_ms = some 1; rss = some 1 };
  sha256 = λ s. s;
  stringify = λ r. "record";
  stringify_entry = λ e. "entry";
  digest_json = λ j. "json";
  health_json = λ h. Json.null;
  actor_json = λ a. Json.null;
  digest_scoring = λ s v. "scoring";
  digest_report = digest_report;
  nfkc = λ s. s;
  lower = λ s. s;
  memory_reader = none;
  memory = record { configured = false; chain_valid = none };
  capture = λ log. none;
  to_upper = λ s. s;
  parse_json = λ s. thrown "SyntaxError";
}

abbrev pub hello : InboundRequest
hello = record {
  id = "r1";
  channel = "webchat";
  user = "u";
  content = "hello";
  timestamp = 1;
  metadata = none;
}

abbrev audit_of : AuditLog (AuditRecord ℕ) → ControllerState ℕ
audit_of audit = record {
  phase = ControllerPhase.idle;
  audit = audit;
  inflight = [];
  suspended = [];
  suspended_requests = [];
}

abbrev pub fresh : ControllerState ℕ
fresh = audit_of (empty_log none)

-- an audit log whose one entry was rewritten
abbrev tampered : ControllerState ℕ
tampered = audit_of (record {
  entries =
      record {
        index = 0;
        log = AuditRecord.decision (boundary_log setting "schema" 1 0);
        prev_hash = "GENESIS";
        entry_hash = "forged";
      }
      ∷ [];
  file = none;
})

decide-total_example :
    ((r : Decided ℕ × ControllerState ℕ) × (decide setting fresh (valid hello) "c1" 2 ≡ ok r)
      × IsSilent setting fresh r)
    ⊎ ((req : InboundRequest) × (valid hello ≡ valid req)
        × ((evaluate_self_health setting fresh 2).fail_safe ≡ false)
        × (((e : String) × (decide setting fresh (valid hello) "c1" 2 ≡ thrown e)
              × RouterThrows setting req e)
            ⊎ ((r : Decided ℕ × ControllerState ℕ) × (decide setting fresh (valid hello) "c1" 2
                  ≡ ok r)
                × (command : ExecuteCommand) × IsEmission setting fresh req "c1" command r)))
decide-total_example = decide-total setting fresh (valid hello) "c1" 2

tampered-verify : verify setting.sha256 setting.stringify tampered.audit ≡ false
unfolding setting verify verify_from show
tampered-verify = refl

tampered-fail_safe : (evaluate_self_health setting tampered 2).fail_safe ≡ true
tampered-fail_safe = evaluate_self_health-tampered setting tampered 2 tampered-verify

decide-fail_safe_example :
    ((r : Decided ℕ × ControllerState ℕ) × (decide setting tampered (valid hello) "c1" 2 ≡ ok r)
      × IsHeld setting "r1" r)
    × ((r : Decided ℕ × ControllerState ℕ) × (decide setting tampered (invalid "schema" 1) "c1" 2
          ≡ ok r)
        × IsHeld setting "invalid-inbound-boundary" r)
decide-fail_safe_example =
    decide-fail_safe setting tampered hello "schema" 1 "c1" 2 tampered-fail_safe

decide-tampered_example :
    (r : Decided ℕ × ControllerState ℕ) × (decide setting tampered (valid hello) "c1" 2 ≡ ok r)
    × (r.0.command ≡ none)
    × (r.1.inflight ≡ tampered.inflight)
decide-tampered_example = decide-tampered setting tampered (valid hello) "c1" 2 tampered-verify

abbrev suspension : Option Bool → SuspendedRequest ℕ
suspension may = record {
  request_id = "r1";
  log = boundary_log setting "schema" 1 0;
  suspended_at = 1;
  reason = "axis";
  fail_safe = none;
  resume_allowed = may;
  self_health = none;
}

abbrev waiting : Option Bool → ControllerState ℕ
waiting may = record {
  phase = ControllerPhase.suspended;
  audit = empty_log none;
  inflight = [];
  suspended = ("r1", suspension may) ∷ [];
  suspended_requests = ("r1", hello) ∷ [];
}

found : (may : Option Bool) → get (waiting may).suspended "r1" ≡ some (suspension may)
unfolding get
found may = refl

found_request : (may : Option Bool) → get (waiting may).suspended_requests "r1" ≡ some hello
unfolding get
found_request may = refl

resume-denied_example :
    (r : Decided ℕ × ControllerState ℕ) × (resume setting
        (waiting (some false))
        "r1"
        ResumeVerdict.approve
        none
        "c1"
        3
      ≡ (ok r.0, r.1))
    × (r.0.command ≡ none)
    × (r.0.log.commit.decision ≡ Decision.suspend)
    × (r.1.suspended ≡ (waiting (some false)).suspended)
    × (r.1.suspended_requests ≡ (waiting (some false)).suspended_requests)
    × (r.1.inflight ≡ (waiting (some false)).inflight)
resume-denied_example =
    resume-denied setting (waiting (some false)) "r1" (suspension (some false)) hello
      ResumeVerdict.approve none "c1" 3 (found (some false)) (found_request (some false)) (inl refl)

healthy : (evaluate_self_health setting (waiting none) 3).fail_safe ≡ false
unfolding setting evaluate_self_health evaluate_hds_brain_health runtime_ok
    runtime_invariant_values_ok runtime_invariant_report_ok build_runtime_invariant_evidence
    values_of final_review_boundary_present distinct is_among Operation-discrete verify verify_from
    evaluate_fail_safe_boundary failed_of validate_policy validate_axes
healthy = refl

resume-lifted_example :
    let r = resume setting (waiting none) "r1" ResumeVerdict.approve none "c1" 3 in
    IsResult setting ResumeVerdict.approve hello "c1" r.0
    × ((again : ResumeVerdict) (who : Option String) (other : String) (later : ℕ)
        → resume setting r.1 "r1" again who other later
          ≡ (thrown ("resume: no suspended request with id=" <> "r1"), r.1))
resume-lifted_example =
    resume-lifted setting (waiting none) "r1" (suspension none) hello ResumeVerdict.approve none
      "c1" 3 (found none) (found_request none) refl healthy

fresh-verify : verify setting.sha256 setting.stringify (empty_log none) ≡ true
unfolding verify verify_from
fresh-verify = refl

Reachable-IsWellFormed_example : IsWellFormed setting (
    step setting
      (step setting fresh (inbound (valid hello)) "c1" 2)
      (verdict "r1" ResumeVerdict.approve none)
      "c2"
      3)
Reachable-IsWellFormed_example = Reachable-IsWellFormed setting fresh-verify (
    after (verdict "r1" ResumeVerdict.approve none) "c2" 3
      (after (inbound (valid hello)) "c1" 2 start))

abbrev reports : List (DownstreamEvent × ℕ)
reports =
    (
      feedback (record {
        command_id = "c1";
        status = FeedbackStatus.success;
        result = none;
        error = none;
        metrics = record { duration_ms = 7; tokens_used = none; tool_calls = none };
      }),
      4,
    )
    ∷ (lifecycle "c1" CommandLifecyclePhase.approval_approved none none, 5)
    ∷ []

run_downstream-NoGain_example :
    NoGain setting (waiting (some false)) (run_downstream setting (waiting (some false)) reports)
run_downstream-NoGain_example = run_downstream-NoGain setting (waiting (some false)) reports
