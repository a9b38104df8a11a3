-- ===== src/Health/Laws.antt =====
-- When HDS-BRAIN fails safe, and when its runtime invariants report passes.
use blue_tanuki.Base.{
  ℕ, String, ◌≡◌, ◌≢◌, ◌↔◌, refl, sym, ◌∙◌, Bool, true, false, not, ◌&&◌, Option, none, some, List,
  [], ◌∷◌, or_else, arith, eq_refl, &&-true,
}
use blue_tanuki.Boundary.{FailSafeInput, Precondition, evaluate_fail_safe_boundary}
use blue_tanuki.Boundary.Laws.{
  failed_preconditions-eq, failed_of_iff, IsHealthy, evaluate_fail_safe_boundary_iff,
}
use blue_tanuki.Health.Types.{HdsBrainHealthOptions, HealthSnapshot, ProcessTelemetry}
use blue_tanuki.Health.Checks.{next_action}
use blue_tanuki.Health.{fail_safe_input, runtime_ok, evaluate_hds_brain_health}
use blue_tanuki.Approval.Types.{Operation-discrete}
use blue_tanuki.Approval.Operation.{is_among}
use blue_tanuki.Health.Invariants.{
  final_review_boundary_present, distinct, RuntimeInvariantKey, ReportBody,
  expected_runtime_invariants, same, values_of, build_runtime_invariant_evidence,
  runtime_invariant_values_ok, runtime_invariant_report_ok,
}

same-expected : (o : Option Bool) (b : Bool) → (same (or_else o b) b ≡ true) ↔ (o ≢ some (not b))
same-expected none true = ((λ _ e. cc), λ _. refl)
same-expected none false = ((λ _ e. cc), λ _. refl)
same-expected (some true) true = ((λ _ e. cc), λ _. refl)
same-expected (some false) true = ((λ e. cc), λ h. absurd (h refl))
same-expected (some true) false = ((λ e. cc), λ h. absurd (h refl))
same-expected (some false) false = ((λ _ e. cc), λ _. refl)

boundary_present : final_review_boundary_present ≡ true
unfolding final_review_boundary_present distinct is_among Operation-discrete
boundary_present = refl

same-present :
    (o : Option Bool)
    → (same (or_else o final_review_boundary_present) true ≡ true) ↔ (o ≢ some false)
same-present o = rw boundary_present (same-expected o true)

-- No value that the caller gives for an invariant differs from the expected one.
abbrev pub IsExpected : (RuntimeInvariantKey → Option Bool) → Type 0
IsExpected actuals =
    (key : RuntimeInvariantKey) → actuals key ≢ some (not (expected_runtime_invariants key))

conj6 :
    (a b c d e f : Bool)
    → ((a && b && c && d && e && f) ≡ true)
      ↔ (a ≡ true) × (b ≡ true) × (c ≡ true) × (d ≡ true) × (e ≡ true) × (f ≡ true)
conj6 a b c d e f = ground arith

IsExpected-of :
    (actuals : RuntimeInvariantKey → Option Bool)
    → let v = values_of actuals in
      (same v.hds_calls_llm false ≡ true)
        × (same v.process_policy_enforced true ≡ true)
        × (same v.external_metadata_can_escalate_authority false ≡ true)
        × (same v.memory_used_for_authority false ≡ true)
        × (same v.complete_history_used_for_authority false ≡ true)
        × (same v.final_review_boundary_enforced_by_approval_gate true ≡ true)
      → IsExpected actuals
unfolding values_of
IsExpected-of actuals t RuntimeInvariantKey.hds_calls_llm = (same-expected _ false).0 t.0
IsExpected-of actuals t RuntimeInvariantKey.process_policy_enforced = (same-expected _ true).0 t.1
IsExpected-of actuals t RuntimeInvariantKey.external_metadata_can_escalate_authority =
    (same-expected _ false).0 t.2
IsExpected-of actuals t RuntimeInvariantKey.memory_used_for_authority =
    (same-expected _ false).0 t.3
IsExpected-of actuals t RuntimeInvariantKey.complete_history_used_for_authority =
    (same-expected _ false).0 t.4
IsExpected-of actuals t RuntimeInvariantKey.final_review_boundary_enforced_by_approval_gate =
    (same-present _).0 t.5

values_ok_iff :
    (actuals : RuntimeInvariantKey → Option Bool)
    → (runtime_invariant_values_ok (values_of actuals) ≡ true) ↔ IsExpected actuals
unfolding runtime_invariant_values_ok values_of
values_ok_iff actuals =
    let all_six =
      conj6 (same (values_of actuals).hds_calls_llm false)
        (same (values_of actuals).process_policy_enforced true)
        (same (values_of actuals).external_metadata_can_escalate_authority false)
        (same (values_of actuals).memory_used_for_authority false)
        (same (values_of actuals).complete_history_used_for_authority false)
        (same (values_of actuals).final_review_boundary_enforced_by_approval_gate true) in
    (
      (λ h. IsExpected-of actuals (all_six.0 h)),
      λ h. all_six.1 (
        (same-expected (actuals RuntimeInvariantKey.hds_calls_llm) false).1
            (h RuntimeInvariantKey.hds_calls_llm),
        (same-expected (actuals RuntimeInvariantKey.process_policy_enforced) true).1
            (h RuntimeInvariantKey.process_policy_enforced),
        (same-expected (actuals RuntimeInvariantKey.external_metadata_can_escalate_authority)
              false).1
            (h RuntimeInvariantKey.external_metadata_can_escalate_authority),
        (same-expected (actuals RuntimeInvariantKey.memory_used_for_authority) false).1
            (h RuntimeInvariantKey.memory_used_for_authority),
        (same-expected (actuals RuntimeInvariantKey.complete_history_used_for_authority) false).1
            (h RuntimeInvariantKey.complete_history_used_for_authority),
        (same-present
              (actuals RuntimeInvariantKey.final_review_boundary_enforced_by_approval_gate)).1
            (h RuntimeInvariantKey.final_review_boundary_enforced_by_approval_gate),
      ),
    )

report_ladder :
    (a b c d e f : Bool)
    → (same (a && (b && (c && (d && (e && (f && true)))))) true
        && true
        && (a && b && c && d && e && f)
        && ((a && true)
            && ((b && true)
                && ((c && true) && ((d && true) && ((e && true) && ((f && true) && true)))))))
      ≡ (a && b && c && d && e && f)
report_ladder a b c d e f = ground arith

report_ok-values :
    (digest : ReportBody → String) (now : ℕ) (actuals : RuntimeInvariantKey → Option Bool)
    → runtime_invariant_report_ok digest (build_runtime_invariant_evidence digest now actuals)
      ≡ runtime_invariant_values_ok (values_of actuals)
unfolding runtime_invariant_report_ok build_runtime_invariant_evidence runtime_invariant_values_ok
report_ok-values digest now actuals =
    let v = values_of actuals in
    rw (eq_refl (digest (build_runtime_invariant_evidence digest now actuals).body)) (
      report_ladder (same v.hds_calls_llm false) (same v.process_policy_enforced true)
        (same v.external_metadata_can_escalate_authority false)
        (same v.memory_used_for_authority false) (same v.complete_history_used_for_authority false)
        (same v.final_review_boundary_enforced_by_approval_gate true))

-- A report that the builder makes passes the check exactly when no value given to the builder differs
-- from the expected one: a violated invariant cannot pass, and the default report passes.
pub build_runtime_invariant_evidence-report_ok :
    (digest : ReportBody → String) (now : ℕ) (actuals : RuntimeInvariantKey → Option Bool)
    → (runtime_invariant_report_ok digest (build_runtime_invariant_evidence digest now actuals)
        ≡ true)
      ↔ IsExpected actuals
build_runtime_invariant_evidence-report_ok digest now actuals =
    let ok = values_ok_iff actuals in
    let same_answer = report_ok-values digest now actuals in
    ((λ h. ok.0 (sym same_answer ∙ h)), λ h. same_answer ∙ ok.1 h)

not-flag : (b : Bool) (P : Type 0) → (b ≡ true ↔ P) → (not b ≡ false) ↔ P
not-flag true P h = ((λ _. h.0 refl), λ _. refl)
not-flag false P h = ((λ e. cc), λ p. cc (h.1 p))

not-not : (b : Bool) → b ≡ not (not b)
not-not true = refl
not-not false = refl

no_failure :
    (i : FailSafeInput) → ((evaluate_fail_safe_boundary i).failed_preconditions ≡ []) ↔ IsHealthy i
no_failure i = rw (failed_preconditions-eq i) (failed_of_iff i)

next_action-nil : (ps : List Precondition) → (next_action ps ≡ none) ↔ (ps ≡ [])
unfolding next_action
next_action-nil [] = ((λ _. refl), λ _. refl)
next_action-nil (p ∷ ps) = ((λ h. ground arith), λ h. cc)

-- The six preconditions, read off the snapshot and the options: what an option does not say is taken to
-- be there, and so is the chain of a memory that has none.
abbrev pub IsReady : (ReportBody → String) → HealthSnapshot → HdsBrainHealthOptions → Type 0
IsReady digest snapshot opts =
    (opts.hds_available ≢ some false)
    × (opts.policy_valid ≢ some false)
    × (snapshot.audit_chain_valid ≡ true)
    × (runtime_invariant_values_ok snapshot.invariants ≡ true)
    × (runtime_invariant_report_ok digest snapshot.runtime_invariants ≡ true)
    × (opts.approval_gate_available ≢ some false)
    × (snapshot.memory_chain_valid ≢ some false)

or_else-true : (o : Option Bool) → (or_else o true ≡ true) ↔ (o ≢ some false)
or_else-true none = ((λ _ e. cc), λ _. refl)
or_else-true (some true) = ((λ _ e. cc), λ _. refl)
or_else-true (some false) = ((λ e. cc), λ h. absurd (h refl))

IsReady-of :
    (digest : ReportBody → String) (snapshot : HealthSnapshot) (opts : HdsBrainHealthOptions)
    → IsHealthy (fail_safe_input snapshot opts (runtime_ok digest snapshot))
      ↔ IsReady digest snapshot opts
unfolding runtime_ok
IsReady-of digest snapshot opts =
    let hds = or_else-true opts.hds_available in
    let policy = or_else-true opts.policy_valid in
    let gate = or_else-true opts.approval_gate_available in
    (
      (λ (h, p, audit, r, g, memory).
          let (values, report) =
            &&-true (runtime_invariant_values_ok snapshot.invariants)
              (runtime_invariant_report_ok digest snapshot.runtime_invariants) r in
          (hds.0 h, policy.0 p, audit, values, report, gate.0 g, memory)),
      λ (h, p, audit, values, report, g, memory).
          (hds.1 h, policy.1 p, audit, rw (values, report) refl, gate.1 g, memory),
    )

-- HDS-BRAIN is out of fail-safe exactly when no option says that HDS-BRAIN or the approval gate is not
-- available or that the policy is not valid, the audit chain is verified, the runtime invariants
-- of the snapshot and the report of them pass their checks, and the memory chain, where there is one,
-- is verified. Commands and downstream execution are allowed exactly then, and the operator is told
-- an action exactly when it fails safe.
pub evaluate_hds_brain_health_iff :
    (digest : ReportBody → String) (process : ProcessTelemetry) (now : ℕ)
    (snapshot : HealthSnapshot) (opts : HdsBrainHealthOptions)
    → let health = evaluate_hds_brain_health digest process now snapshot opts in
      (health.fail_safe ≡ false ↔ IsReady digest snapshot opts)
      × (health.command_execution_allowed ≡ not health.fail_safe)
      × (health.downstream_execution_allowed ≡ not health.fail_safe)
      × (health.operator_next_action ≡ none ↔ health.fail_safe ≡ false)
unfolding evaluate_hds_brain_health
evaluate_hds_brain_health_iff digest process now snapshot opts =
    let input = fail_safe_input snapshot opts (runtime_ok digest snapshot) in
    let (allowed, command, downstream, _) = evaluate_fail_safe_boundary_iff input in
    let fail_safe =
      not-flag (evaluate_fail_safe_boundary input).base.allowed (IsHealthy input) allowed in
    let action = next_action-nil (evaluate_fail_safe_boundary input).failed_preconditions in
    let none_failed = no_failure input in
    let ready = IsReady-of digest snapshot opts in
    (
      ((λ h. ready.0 (fail_safe.0 h)), λ r. fail_safe.1 (ready.1 r)),
      command ∙ not-not _,
      downstream ∙ not-not _,
      (
        (λ h. fail_safe.1 (none_failed.0 (action.0 h))),
        λ h. action.1 (none_failed.1 (fail_safe.0 h)),
      ),
    )
