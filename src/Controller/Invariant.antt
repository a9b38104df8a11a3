-- ===== src/Controller/Invariant.antt =====
-- What holds of every state that controller.ts can reach.
use blue_tanuki.Base.{
  ℕ, String, ◌≡◌, ◌⊎◌, inl, inr, refl, sym, ap, ◌∙◌, ◌==◌, Bool, true, false, Option, none, some,
  is_some, if◌then◌else◌, Result, ok, thrown, ◌>>=◌,
}
use blue_tanuki.Base.Dict.{Dict, get, put, remove, get-put, get-remove}
use blue_tanuki.Protocol.{Decision, ExecuteCommand}
use blue_tanuki.Audit.{AuditLog, verify}
use blue_tanuki.Audit.Chain.{append-verify}
use blue_tanuki.Process.Types.{InboundRequest}
use blue_tanuki.Health.Types.{HdsBrainHealth}
use blue_tanuki.Controller.Types.{
  ControllerState, DecisionLog, AuditRecord, CapturedMemoryReference, Setting,
}
use blue_tanuki.Controller.Prepare.{
  BoundaryResult, valid, invalid, Decided, record_in, capture_memory_reference, suspend_fail_safe,
  authority_request, record_captured, evaluate_self_health,
}
use blue_tanuki.Controller.Machine.{settle, judge, decide_healthy, decide}
use blue_tanuki.Controller.Events.{state_after}

module _ {Num : Type 0} (setting : Setting Num) where
  abbrev pub Verifies : AuditLog (AuditRecord Num) → Type 0
  Verifies audit = verify setting.sha256 setting.stringify audit ≡ true

  -- Every command in flight was logged as ASSERT.
  abbrev pub AllAsserted : Dict (DecisionLog Num) → Type 0
  AllAsserted m =
      (id : String) (log : DecisionLog Num)
      → get m id ≡ some log
      → log.commit.decision ≡ Decision.assert

  -- The audit chain verifies, every command in flight was asserted, and a request is kept exactly for
  -- the suspensions.
  abbrev pub IsWellFormed : ControllerState Num → Type 0
  IsWellFormed st =
      Verifies st.audit
      × AllAsserted st.inflight
      × ((id : String) → is_some (get st.suspended id) ≡ is_some (get st.suspended_requests id))

  pub record_in-Verifies :
      (audit : AuditLog (AuditRecord Num)) (r : AuditRecord Num)
      → Verifies audit
      → Verifies (record_in setting audit r)
  unfolding record_in
  record_in-Verifies audit r h =
      (append-verify setting.sha256 setting.stringify setting.stringify_entry audit r).4 ∙ h

  captured-Verifies :
      (audit : AuditLog (AuditRecord Num)) (log : DecisionLog Num) (now : ℕ)
      (o : Option CapturedMemoryReference)
      → Verifies audit
      → Verifies (record_captured setting audit log now o)
  unfolding record_captured
  captured-Verifies audit log now none h = h
  captured-Verifies audit log now (some c) h = record_in-Verifies audit _ h

  -- recording a decision and what the memory captured of it
  pub decision-Verifies :
      (audit : AuditLog (AuditRecord Num)) (log : DecisionLog Num) (now : ℕ)
      → Verifies audit
      → Verifies (
          capture_memory_reference setting
            (record_in setting audit (AuditRecord.decision log))
            log
            now)
  unfolding capture_memory_reference
  decision-Verifies audit log now h =
      captured-Verifies (record_in setting audit (AuditRecord.decision log)) log now
        (setting.capture log) (record_in-Verifies audit (AuditRecord.decision log) h)

  put_cases {ℓ} :
      {A : Type ℓ} (b : Bool) (x y : A) (o : Option A)
      → (if b then some x else o) ≡ some y
      → (x ≡ y) ⊎ (o ≡ some y)
  put_cases true x y o e = inl cc
  put_cases false x y o e = inr e

  pub removed_cases {ℓ} :
      {A : Type ℓ} (b : Bool) (y : A) (o : Option A) → (if b then none else o) ≡ some y → o ≡ some y
  removed_cases true y o e = cc
  removed_cases false y o e = e

  pub AllAsserted-put :
      (m : Dict (DecisionLog Num)) (id : String) (log : DecisionLog Num)
      → AllAsserted m
      → log.commit.decision ≡ Decision.assert
      → AllAsserted (put m id log)
  AllAsserted-put m id log h asserted j l found =
      elim (put_cases (id == j) log l (get m j) (sym (get-put m id j log) ∙ found)) [
        | inl e ↦ ap (λ x. x.commit.decision) (sym e) ∙ asserted
        | inr e ↦ h j l e
      ]

  pub AllAsserted-remove :
      (m : Dict (DecisionLog Num)) (id : String) → AllAsserted m → AllAsserted (remove m id)
  AllAsserted-remove m id h j l found =
      h j l (removed_cases (id == j) l (get m j) (sym (get-remove m id j) ∙ found))

  pub AllAsserted-if :
      (b : Bool) (m : Dict (DecisionLog Num)) (id : String)
      → AllAsserted m
      → AllAsserted (if b then remove m id else m)
  AllAsserted-if true m id h = AllAsserted-remove m id h
  AllAsserted-if false m id h = h

  -- The two maps of suspensions have the same keys.
  abbrev pub SameKeys : {A B : Type 0} → Dict A → Dict B → Type 0
  SameKeys m n = (id : String) → is_some (get m id) ≡ is_some (get n id)

  same_put :
      {A B : Type 0} (b : Bool) (x : A) (y : B) (o : Option A) (p : Option B)
      → is_some o ≡ is_some p
      → is_some (if b then some x else o) ≡ is_some (if b then some y else p)
  same_put true x y o p h = refl
  same_put false x y o p h = h

  same_removed :
      {A B : Type 0} (b : Bool) (o : Option A) (p : Option B)
      → is_some o ≡ is_some p
      → is_some (if b then none else o) ≡ is_some (if b then none else p)
  same_removed true o p h = refl
  same_removed false o p h = h

  SameKeys-put :
      {A B : Type 0} (m : Dict A) (n : Dict B) (id : String) (x : A) (y : B)
      → SameKeys m n
      → SameKeys (put m id x) (put n id y)
  SameKeys-put m n id x y h j =
      rw (get-put m id j x, get-put n id j y) (same_put (id == j) x y (get m j) (get n j) (h j))

  pub SameKeys-remove :
      {A B : Type 0} (m : Dict A) (n : Dict B) (id : String)
      → SameKeys m n
      → SameKeys (remove m id) (remove n id)
  SameKeys-remove m n id h j =
      rw (get-remove m id j, get-remove n id j) (same_removed (id == j) (get m j) (get n j) (h j))

  settle-IsWellFormed :
      (d : Decision) (st : ControllerState Num) (req : InboundRequest) (log : DecisionLog Num)
      (command : Option ExecuteCommand) (now : ℕ)
      → log.commit.decision ≡ d
      → IsWellFormed st
      → IsWellFormed (state_after setting st (settle setting d st req log command now))
  unfolding settle
  settle-IsWellFormed Decision.assert st req log none now h w = w
  settle-IsWellFormed Decision.assert st req log (some command) now h (v, a, s) =
      (decision-Verifies st.audit log now v, AllAsserted-put st.inflight command.id log a h, s)
  settle-IsWellFormed Decision.suspend st req log command now h (v, a, s) = (
    decision-Verifies st.audit log now v,
    a,
    SameKeys-put st.suspended st.suspended_requests req.id _ req s,
  )
  settle-IsWellFormed Decision.out_of_scope st req log command now h (v, a, s) =
      (decision-Verifies st.audit log now v, a, s)
  settle-IsWellFormed Decision.fail st req log command now h (v, a, s) =
      (decision-Verifies st.audit log now v, a, s)

  judged-IsWellFormed :
      (st : ControllerState Num) (req : InboundRequest)
      (judged : Result String (DecisionLog Num × Option ExecuteCommand)) (now : ℕ)
      → IsWellFormed st
      → IsWellFormed (
          state_after setting st
            (judged >>= λ j. settle setting j.0.commit.decision st req j.0 j.1 now))
  judged-IsWellFormed st req (thrown e) now w = w
  judged-IsWellFormed st req (ok (log, command)) now w =
      settle-IsWellFormed log.commit.decision st req log command now refl w

  suspend-IsWellFormed :
      (st : ControllerState Num) (req : InboundRequest) (log : DecisionLog Num)
      (health : Option HdsBrainHealth) (now : ℕ)
      → IsWellFormed st
      → IsWellFormed (suspend_fail_safe setting st req log health now)
  suspend-IsWellFormed st req log health now (v, a, s) = (
    record_in-Verifies st.audit (AuditRecord.decision log) v,
    a,
    SameKeys-put st.suspended st.suspended_requests req.id _ req s,
  )

  pub either :
      (b : Bool) (st : ControllerState Num)
      (x y : Result String (Decided Num × ControllerState Num))
      → IsWellFormed (state_after setting st x)
      → IsWellFormed (state_after setting st y)
      → IsWellFormed (state_after setting st (if b then x else y))
  either true st x y h k = h
  either false st x y h k = k

  pub decide-IsWellFormed :
      (st : ControllerState Num) (raw : BoundaryResult) (uuid : String) (now : ℕ)
      → IsWellFormed st
      → IsWellFormed (state_after setting st (decide setting st raw uuid now))
  unfolding decide decide_healthy
  decide-IsWellFormed st (invalid reason n) uuid now w = suspend-IsWellFormed st _ _ none now w
  decide-IsWellFormed st (valid req) uuid now w =
      either (evaluate_self_health setting st now).fail_safe st _
        (decide_healthy setting st req uuid now)
        (suspend-IsWellFormed st (authority_request setting req) _ _ now w)
        (judged-IsWellFormed st (authority_request setting req) (judge setting req uuid now) now w)
