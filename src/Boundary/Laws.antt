-- ===== src/Boundary/Laws.antt =====
-- When the fail-safe boundary of boundary_policy.ts allows.
use blue_tanuki.Base.{
  ◌≡◌, ◌≢◌, ◌↔◌, refl, Bool, true, false, Option, none, some, List, [], ◌∷◌, arith,
}
use blue_tanuki.Boundary.{
  Precondition, FailSafeInput, failed_of, fail_safe_of, evaluate_fail_safe_boundary,
}

-- All six preconditions, where a memory without a chain to verify does not fail.
abbrev pub IsHealthy : FailSafeInput → Type 0
IsHealthy i =
    (i.hds_available ≡ true)
    × (i.policy_valid ≡ true)
    × (i.audit_chain_valid ≡ true)
    × (i.runtime_invariants_valid ≡ true)
    × (i.approval_gate_available ≡ true)
    × (i.memory_chain_valid ≢ some false)

failed_of-nil :
    (a b c d e : Bool) (m : Option Bool)
    → let i : FailSafeInput = record {
      hds_available = a;
      policy_valid = b;
      audit_chain_valid = c;
      runtime_invariants_valid = d;
      approval_gate_available = e;
      memory_chain_valid = m;
    } in
      (failed_of i ≡ []) ↔ IsHealthy i
unfolding failed_of
failed_of-nil true true true true true none = ground arith
failed_of-nil true true true true true (some true) = ground arith
failed_of-nil true true true true true (some false) = ground arith
failed_of-nil false b c d e m = ((λ h. cc), λ h. cc)
failed_of-nil true false c d e m = ((λ h. cc), λ h. cc)
failed_of-nil true true false d e m = ((λ h. cc), λ h. cc)
failed_of-nil true true true false e m = ((λ h. cc), λ h. cc)
failed_of-nil true true true true false m = ((λ h. cc), λ h. cc)

pub failed_of_iff : (i : FailSafeInput) → (failed_of i ≡ []) ↔ IsHealthy i
failed_of_iff i =
    failed_of-nil i.hds_available i.policy_valid i.audit_chain_valid i.runtime_invariants_valid
      i.approval_gate_available i.memory_chain_valid

fail_safe_of-eq :
    (ps : List Precondition)
    → ((fail_safe_of ps).base.allowed ≡ true ↔ ps ≡ [])
      × ((fail_safe_of ps).failed_preconditions ≡ ps)
      × ((fail_safe_of ps).command_execution_allowed ≡ (fail_safe_of ps).base.allowed)
      × ((fail_safe_of ps).downstream_execution_allowed ≡ (fail_safe_of ps).base.allowed)
      × ((fail_safe_of ps).base.used_for_authority ≡ false)
fail_safe_of-eq [] = (((λ _. refl), λ _. refl), refl, refl, refl, refl)
fail_safe_of-eq (p ∷ ps) = (((λ h. cc), λ h. cc), refl, refl, refl, refl)

-- The fail-safe boundary allows exactly when no precondition has failed, commands and downstream
-- execution are allowed exactly with it, and it never counts as authority.
pub evaluate_fail_safe_boundary_iff :
    (i : FailSafeInput)
    → ((evaluate_fail_safe_boundary i).base.allowed ≡ true ↔ IsHealthy i)
      × ((evaluate_fail_safe_boundary i).command_execution_allowed
          ≡ (evaluate_fail_safe_boundary i).base.allowed)
      × ((evaluate_fail_safe_boundary i).downstream_execution_allowed
          ≡ (evaluate_fail_safe_boundary i).base.allowed)
      × ((evaluate_fail_safe_boundary i).base.used_for_authority ≡ false)
unfolding evaluate_fail_safe_boundary
evaluate_fail_safe_boundary_iff i =
    let (allowed, _, command, downstream, authority) = fail_safe_of-eq (failed_of i) in
    let healthy = failed_of_iff i in
    (((λ h. healthy.0 (allowed.0 h)), λ h. allowed.1 (healthy.1 h)), command, downstream, authority)

pub failed_preconditions-eq :
    (i : FailSafeInput) → (evaluate_fail_safe_boundary i).failed_preconditions ≡ failed_of i
unfolding evaluate_fail_safe_boundary
failed_preconditions-eq i = (fail_safe_of-eq (failed_of i)).1
