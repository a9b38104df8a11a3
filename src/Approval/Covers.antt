-- ===== src/Approval/Covers.antt =====
-- What a matching grant covers, and the grant that remembers a decision (approval_policy.ts).
use mathlib.Core.List.{Memᴰ}
use mathlib.Core.Option.{some-injective}
use blue_tanuki.Base.{
  ℕ, ◌≤◌, String, ◌≡◌, refl, sym, ◌∙◌, Bool, true, false, not, ◌&&◌, ◌||◌, Option, none, some, List,
  [], ◌∷◌, eq_iff, eq_refl, or_else, if◌then◌else◌, filter, arith, All, leb→le, test-true, test_of,
  all, mem-filter, All-filter, filter-nil, &&-true, ◌==◌, ap,
}
use blue_tanuki.Base.Text.{includes}
use blue_tanuki.Base.Sort.{head?-sort_by, leftmost_max-IsMaximum, leftmost_max-none}
use blue_tanuki.Approval.Types.{
  Mode, is_mode, Risk, Operation, Operation-discrete, Scope-discrete, Scope, ApprovalContext,
  ApprovalGrant, ApprovalEvaluation,
}
use blue_tanuki.Approval.Grants.{
  grant_matches, specificity, rank, is_expired, is_operation, is_scope, is_actor, covers_risk,
  has_capabilities, given, same_text, GrantOptions, approval_grant_from_evaluation, unless,
}
use blue_tanuki.Approval.Evaluate.{matched_grant}

all_sound : (p : String → Bool) (xs : List String) → all p xs ≡ true → All (λ x. p x ≡ true) xs
all_sound p [] h = tt
all_sound p (x ∷ xs) h =
    let (here, rest) = &&-true (p x) (all p xs) h in (here, all_sound p xs rest)

-- The grant is in force at `now`, and its operation, scope, actor, risk, channel, target and
-- capabilities, where it names them, reach the context; where both it and the context name a path,
-- the paths are the same. An empty text names nothing.
pub record Covers (g : ApprovalGrant) (ctx : ApprovalContext) (now : ℕ) : Type 0 where
  pub current : is_expired g.expires_at now ≡ false
  pub operation : (o : Operation) → g.operation ≡ some o → o ≡ ctx.operation
  pub target_scope : (s : Scope) → g.target_scope ≡ some s → s ≡ ctx.target_scope
  pub actor : (a : String) → g.actor ≡ some a → a ≡ ctx.actor
  pub risk : (r : Risk) → g.risk ≡ some r → rank ctx.risk ≤ rank r
  pub channel : (t : String) → g.channel ≡ some t → (t == "") ≡ false → ctx.channel ≡ some t
  pub target : (t : String) → g.target ≡ some t → (t == "") ≡ false → ctx.target ≡ some t
  pub path_pattern :
      (t p : String)
      → g.path_pattern ≡ some t
      → (t == "") ≡ false
      → ctx.path_pattern ≡ some p
      → (p == "") ≡ false
      → t ≡ p
  pub capabilities :
      (caps : List String)
      → g.capabilities ≡ some caps
      → All (λ c. includes ctx.capabilities c ≡ true) caps

ladder :
    (e o s a r c t p k : Bool)
    → (if e
        then false
        else if not o
        then false
        else if not s
        then false
        else if not a
        then false
        else if not r
        then false
        else if c
        then false
        else if t
        then false
        else if p
        then false
        else k)
      ≡ true
    → (e ≡ false)
      × (o ≡ true)
      × (s ≡ true)
      × (a ≡ true)
      × (r ≡ true)
      × (c ≡ false)
      × (t ≡ false)
      × (p ≡ false)
      × (k ≡ true)
ladder e o s a r c t p k h = ground arith

-- the tests of `grant_matches`, all passed
grant_matches-tests :
    (g : ApprovalGrant) (ctx : ApprovalContext) (now : ℕ)
    → grant_matches g ctx now ≡ true
    → (is_expired g.expires_at now ≡ false)
      × (is_operation g.operation ctx.operation ≡ true)
      × (is_scope g.target_scope ctx.target_scope ≡ true)
      × (is_actor g.actor ctx.actor ≡ true)
      × (covers_risk g.risk ctx.risk ≡ true)
      × ((given g.channel && not (same_text g.channel ctx.channel)) ≡ false)
      × ((given g.target && not (same_text g.target ctx.target)) ≡ false)
      × ((given g.path_pattern
            && given ctx.path_pattern
            && not (same_text g.path_pattern ctx.path_pattern))
          ≡ false)
      × (has_capabilities g.capabilities ctx.capabilities ≡ true)
unfolding grant_matches
grant_matches-tests g ctx now h =
    ladder _ _ _ _ _ (given g.channel && not (same_text g.channel ctx.channel))
      (given g.target && not (same_text g.target ctx.target))
      (given g.path_pattern
        && given ctx.path_pattern
        && not (same_text g.path_pattern ctx.path_pattern))
      _ h

opposite : (b : Bool) → not b ≡ false → b ≡ true
opposite b h = ground arith

-- A text that is given, where the test for a different one failed, is the one of the context.
same_of :
    (mine theirs : Option String) (t : String)
    → (given mine && not (same_text mine theirs)) ≡ false
    → mine ≡ some t
    → (t == "") ≡ false
    → theirs ≡ some t
same_of none theirs t h e filled = cc
same_of (some s) none t h e filled = cc (rw (some-injective s t e, filled) at h)
same_of (some s) (some u) t h e filled =
    ap some (sym ((eq_iff t u).0 (opposite (t == u) (rw (some-injective s t e, filled) at h))))

same_path :
    (mine theirs : Option String) (t p : String)
    → (given mine && given theirs && not (same_text mine theirs)) ≡ false
    → mine ≡ some t
    → (t == "") ≡ false
    → theirs ≡ some p
    → (p == "") ≡ false
    → t ≡ p
same_path mine theirs t p h e filled f there =
    (eq_iff t p).0 (opposite (t == p) (rw (e, f, filled, there) at h))

module _ (g : ApprovalGrant) (ctx : ApprovalContext) (now : ℕ) where
  grant_matches-Covers : grant_matches g ctx now ≡ true → Covers g ctx now
  grant_matches-Covers h =
      let (current, operation, scope, actor, risk, channel, target, path, caps) =
        grant_matches-tests g ctx now h in
      record {
        current = current;
        operation = λ o e. test-true (Operation-discrete o ctx.operation) (rw e at operation);
        target_scope = λ s e. test-true (Scope-discrete s ctx.target_scope) (rw e at scope);
        actor = λ a e. (eq_iff a ctx.actor).0 (rw e at actor);
        risk = λ r e. leb→le (rank ctx.risk) (rank r) (rw e at risk);
        channel = λ t e filled. same_of g.channel ctx.channel t channel e filled;
        target = λ t e filled. same_of g.target ctx.target t target e filled;
        path_pattern = λ t p e filled f there.
            same_path g.path_pattern ctx.path_pattern t p path e filled f there;
        capabilities = λ cs e. all_sound (includes ctx.capabilities) cs (rw e at caps);
      }

-- The grant that decides is listed, matches, and no other that matches is more specific.
pub matched_grant-found :
    (grants : List ApprovalGrant) (ctx : ApprovalContext) (now : ℕ) {g : ApprovalGrant}
    → matched_grant grants ctx now ≡ some g
    → Memᴰ g grants
      × (grant_matches g ctx now ≡ true)
      × All (λ h. grant_matches h ctx now ≡ true → specificity h ≤ specificity g) grants
unfolding matched_grant
matched_grant-found grants ctx now {g} e =
    let kept = filter (λ h. grant_matches h ctx now) grants in
    let (found, greatest) =
      leftmost_max-IsMaximum specificity kept (sym (head?-sort_by specificity kept) ∙ e) in
    let (listed, matches) = mem-filter (λ h. grant_matches h ctx now) grants found in
    (
      listed,
      matches,
      All-filter (λ h. grant_matches h ctx now) (λ h. specificity h ≤ specificity g) grants
          greatest,
    )

pub matched_grant-none :
    (grants : List ApprovalGrant) (ctx : ApprovalContext) (now : ℕ)
    → matched_grant grants ctx now ≡ none
    → All (λ h. grant_matches h ctx now ≡ false) grants
unfolding matched_grant
matched_grant-none grants ctx now e =
    let kept = filter (λ h. grant_matches h ctx now) grants in
    filter-nil (λ h. grant_matches h ctx now) grants
      (leftmost_max-none specificity kept (sym (head?-sort_by specificity kept) ∙ e))

-- The grant that decides is one of the given grants, and none that matches is more specific. It is in
-- force; what it names of operation, scope, actor, channel and target is the context's, the
-- context's risk is not above its own, the context has its capabilities, and where both name a
-- path it is the same path.
pub matched_grant-Covers :
    (grants : List ApprovalGrant) (ctx : ApprovalContext) (now : ℕ) {g : ApprovalGrant}
    → matched_grant grants ctx now ≡ some g
    → Memᴰ g grants
      × Covers g ctx now
      × All (λ h. grant_matches h ctx now ≡ true → specificity h ≤ specificity g) grants
matched_grant-Covers grants ctx now {g} e =
    let (listed, matches, greatest) = matched_grant-found grants ctx now e in
    (listed, grant_matches-Covers g ctx now matches, greatest)

ladder_up :
    (e o s a r c t p k : Bool)
    → e ≡ false
    → o ≡ true
    → s ≡ true
    → a ≡ true
    → r ≡ true
    → c ≡ false
    → t ≡ false
    → p ≡ false
    → k ≡ true
    → (if e
        then false
        else if not o
        then false
        else if not s
        then false
        else if not a
        then false
        else if not r
        then false
        else if c
        then false
        else if t
        then false
        else if p
        then false
        else k)
      ≡ true
ladder_up e o s a r c t p k he ho hs ha hr hc ht hp hk = ground arith

self_text :
    (b : Bool) (o : Option String) → (given (unless b o) && not (same_text (unless b o) o)) ≡ false
self_text true o = refl
self_text false none = refl
self_text false (some s) = ground (arith, eq_refl s)

self_path :
    (b : Bool) (o : Option String)
    → (given (unless b o) && given o && not (same_text (unless b o) o)) ≡ false
self_path true o = refl
self_path false none = refl
self_path false (some s) = ground (arith, eq_refl s)

self_operation : (b : Bool) (op : Operation) → is_operation (unless b (some op)) op ≡ true
self_operation true op = refl
self_operation false op = test_of (Operation-discrete op op) refl

self_scope : (b : Bool) (scope : Scope) → is_scope (unless b (some scope)) scope ≡ true
self_scope true scope = refl
self_scope false scope = test_of (Scope-discrete scope scope) refl

self_risk : (b : Bool) (risk : Risk) → covers_risk (unless b (some risk)) risk ≡ true
self_risk true risk = refl
self_risk false risk = ground arith

all_self : (xs ys : List String) → All (λ x. includes ys x ≡ true) xs → all (includes ys) xs ≡ true
all_self [] ys h = refl
all_self (x ∷ xs) ys (p, h) = rw p (all_self xs ys h)

includes-cons :
    (y : String) (ys xs : List String)
    → All (λ x. includes ys x ≡ true) xs
    → All (λ x. includes (y ∷ ys) x ≡ true) xs
unfolding includes
includes-cons y ys [] h = tt
includes-cons y ys (x ∷ xs) (p, h) = (ground arith, includes-cons y ys xs h)

includes-All : (xs : List String) → All (λ x. includes xs x ≡ true) xs
unfolding includes
includes-All [] = tt
includes-All (x ∷ xs) = (ground (arith, eq_refl x), includes-cons x xs xs (includes-All xs))

self_capabilities :
    (b : Bool) (caps : List String) → has_capabilities (unless b (some caps)) caps ≡ true
self_capabilities true caps = refl
self_capabilities false caps = all_self caps caps (includes-All caps)

module _ (digest : ApprovalGrant → String) (evaluation : ApprovalEvaluation) (opts : GrantOptions)
    (clock now : ℕ) (in_force : is_expired opts.expires_at now ≡ false) where
  abbrev grant : ApprovalGrant
  grant = approval_grant_from_evaluation digest evaluation opts clock

  -- The grant that an evaluation leaves matches the context of that evaluation, in whatever mode
  -- it was made, as long as it has not expired.
  pub approval_grant_from_evaluation-matches : grant_matches grant evaluation.context now ≡ true
  unfolding approval_grant_from_evaluation grant_matches
  approval_grant_from_evaluation-matches =
      let ctx = evaluation.context in
      let full =
        opts.widen_to_full_access
        || is_mode (or_else opts.mode Mode.remember_this_decision) Mode.full_access in
      ladder_up _ _ _ _ _ _ _ _ _ in_force (self_operation full ctx.operation)
        (self_scope full ctx.target_scope) (eq_refl ctx.actor) (self_risk full ctx.risk)
        (self_text full ctx.channel) (self_text full ctx.target) (self_path full ctx.path_pattern)
        (self_capabilities full ctx.capabilities)
