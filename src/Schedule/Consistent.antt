-- ===== src/Schedule/Consistent.antt =====
-- How the three maps of apps/gateway/src/runtime_schedule.ts belong together, on the functions that look them up.
use mathlib.Core.Path.{subst}
use mathlib.Core.Option.{some-injective}
use blue_tanuki.Base.{
  String, ◌==◌, ◌≡◌, sym, ap, ◌∙◌, inl, inr, true, false, Option, none, some, eq_iff, eq_refl,
  Bool-cases, if◌then◌else◌,
}
use blue_tanuki.Schedule.Types.{RuntimeSchedule, ScheduleOperation, PendingOperation}
use blue_tanuki.Schedule.Manager.{is_active, active_in}

-- What an operation needs of the schedule that is listed under its id: a new one stands where none is
-- active, another changes the active one, as it was when the operation was requested.
abbrev pub Fits : Option RuntimeSchedule → PendingOperation → Type 0
Fits o p = elim p.operation [
  | ScheduleOperation.create ↦ active_in o ≡ none
  | _ ↦ (s : RuntimeSchedule) × (p.previous ≡ some s) × (o ≡ some s) × (is_active s ≡ true)
]

-- a map with one key changed, or taken out
abbrev pub IsUpdate {ℓ} :
    {A : Type ℓ} → (String → Option A) → String → Option A → (String → Option A) → Type ℓ
IsUpdate f k o g = (j : String) → g j ≡ (if k == j then o else f j)

abbrev pub IsKeyed : (String → Option RuntimeSchedule) → Type 0
IsKeyed S = (id : String) (s : RuntimeSchedule) → S id ≡ some s → s.id ≡ id

module _ (F : String → Option PendingOperation) (B : String → Option String)
    (S : String → Option RuntimeSchedule) where
  abbrev pub IsOpen : String → PendingOperation → Type 0
  IsOpen c p =
      (p.command_id ≡ c)
      × (p.proposed.id ≡ p.schedule_id)
      × (B p.schedule_id ≡ some c)
      × Fits (S p.schedule_id) p

  -- Every pending operation is known under its command and its schedule, and fits the schedule that is
  -- listed; a schedule's command is pending; schedules are listed under their ids.
  abbrev pub IsConsistentOn : Type 0
  IsConsistentOn =
      ((c : String) (p : PendingOperation) → F c ≡ some p → IsOpen c p)
      × ((id c : String)
          → B id ≡ some c
          → (p : PendingOperation) × (F c ≡ some p) × (p.schedule_id ≡ id))
      × IsKeyed S

pub update_same {ℓ} :
    {A : Type ℓ} (f : String → Option A) (k : String) (o : Option A) (g : String → Option A)
    → IsUpdate f k o g
    → g k ≡ o
update_same f k o g u = u k ∙ ap (λ b. if b then o else f k) (eq_refl k)

pub update_at {ℓ} :
    {A : Type ℓ} (f : String → Option A) (k j : String) (o : Option A) (g : String → Option A)
    → IsUpdate f k o g
    → (k == j) ≡ true
    → g j ≡ o
update_at f k j o g u same = u j ∙ ap (λ b. if b then o else f j) same

pub update_other {ℓ} :
    {A : Type ℓ} (f : String → Option A) (k j : String) (o : Option A) (g : String → Option A)
    → IsUpdate f k o g
    → (k == j) ≡ false
    → g j ≡ f j
update_other f k j o g u other = u j ∙ ap (λ b. if b then o else f j) other

same_key : (a b : String) → (a == b) ≡ true → a ≡ b
same_key a b = (eq_iff a b).0

key_same : (a b : String) → a ≡ b → (a == b) ≡ true
key_same a b = (eq_iff a b).1

module _ {F : String → Option PendingOperation} {B : String → Option String}
    {S : String → Option RuntimeSchedule} (F' : String → Option PendingOperation)
    (B' : String → Option String) (S' : String → Option RuntimeSchedule) (c : String)
    (p : PendingOperation) where
  -- Another pending operation is about another schedule.
  pub other_schedule :
      (h : IsConsistentOn F B S) (q : PendingOperation) (d : String)
      → F c ≡ some p
      → F d ≡ some q
      → (c == d) ≡ false
      → (p.schedule_id == q.schedule_id) ≡ false
  other_schedule h q d found held other = elim (Bool-cases (p.schedule_id == q.schedule_id)) [
    | inl same ↦
        let mine : B p.schedule_id ≡ some c = (h.0 c p found).2 in
        let yours : B q.schedule_id ≡ some d = (h.0 d q held).2 in
        let both : c ≡ d =
          some-injective c d
            (sym mine ∙ ap B (same_key p.schedule_id q.schedule_id same) ∙ yours) in
        cc (key_same c d both)
    | inr different ↦ different
  ]

  -- An operation that is taken out, whatever becomes of its schedule.
  pub close-IsConsistentOn :
      IsConsistentOn F B S
      → F c ≡ some p
      → IsUpdate F c none F'
      → IsUpdate B p.schedule_id none B'
      → (o : Option RuntimeSchedule) → IsUpdate S p.schedule_id o S'
      → IsKeyed S'
      → IsConsistentOn F' B' S'
  close-IsConsistentOn h found uf ub o us keyed = (
    (λ d q held. elim (Bool-cases (c == d)) [
      | inl same ↦ cc (update_at F c d none F' uf same)
      | inr other ↦
          let before : F d ≡ some q = sym (update_other F c d none F' uf other) ∙ held in
          let (names, proposes, indexed, fits) = h.0 d q before in
          let apart = other_schedule h q d found before other in
          (
            names,
            proposes,
            update_other B p.schedule_id q.schedule_id none B' ub apart ∙ indexed,
            subst (λ t. Fits t q) (sym (update_other S p.schedule_id q.schedule_id o S' us apart))
                fits,
          )
    ]),
    (λ id d indexed. elim (Bool-cases (p.schedule_id == id)) [
      | inl same ↦ cc (update_at B p.schedule_id id none B' ub same)
      | inr other ↦
          let (q, held, about) =
            h.1 id d (sym (update_other B p.schedule_id id none B' ub other) ∙ indexed) in
          elim (Bool-cases (c == d)) [
            | inl mine ↦
                let both : p ≡ q =
                  some-injective p q (sym found ∙ ap F (same_key c d mine) ∙ held) in
                cc (key_same p.schedule_id id (ap (λ x. x.schedule_id) both ∙ about))
            | inr yours ↦ (q, update_other F c d none F' uf yours ∙ held, about)
          ]
    ]),
    keyed,
  )

  -- A new operation, under a command that is not pending and for a schedule that nothing waits for.
  pub open-IsConsistentOn :
      IsConsistentOn F B S
      → F c ≡ none
      → B p.schedule_id ≡ none
      → p.command_id ≡ c
      → p.proposed.id ≡ p.schedule_id
      → Fits (S p.schedule_id) p
      → IsUpdate F c (some p) F'
      → IsUpdate B p.schedule_id (some c) B'
      → IsConsistentOn F' B' S
  open-IsConsistentOn h fresh free names proposes fits uf ub = (
    (λ d q held. elim (Bool-cases (c == d)) [
      | inl same ↦
          let both : p ≡ q =
            some-injective p q
              (sym (update_same F c (some p) F' uf) ∙ ap F' (same_key c d same) ∙ held) in
          subst (λ x. IsOpen F' B' S d x) both
            (
              names ∙ same_key c d same,
              proposes,
              update_same B p.schedule_id (some c) B' ub ∙ ap some (same_key c d same),
              fits,
            )
      | inr other ↦
          let (named, proposed, indexed, fit) =
            h.0 d q (sym (update_other F c d (some p) F' uf other) ∙ held) in
          let apart : (p.schedule_id == q.schedule_id) ≡ false =
            elim (Bool-cases (p.schedule_id == q.schedule_id)) [
              | inl same ↦ cc (ap B (same_key p.schedule_id q.schedule_id same))
              | inr different ↦ different
            ] in
          (
            named,
            proposed,
            update_other B p.schedule_id q.schedule_id (some c) B' ub apart ∙ indexed,
            fit,
          )
    ]),
    (λ id d indexed. elim (Bool-cases (p.schedule_id == id)) [
      | inl same ↦
          let about : p.schedule_id ≡ id = same_key p.schedule_id id same in
          let both : c ≡ d =
            some-injective c d
              (sym (update_same B p.schedule_id (some c) B' ub) ∙ ap B' about ∙ indexed) in
          (p, ap F' (sym both) ∙ update_same F c (some p) F' uf, about)
      | inr other ↦
          let (q, held, about) =
            h.1 id d (sym (update_other B p.schedule_id id (some c) B' ub other) ∙ indexed) in
          elim (Bool-cases (c == d)) [
            | inl mine ↦ cc (ap F (same_key c d mine))
            | inr yours ↦ (q, update_other F c d (some p) F' uf yours ∙ held, about)
          ]
    ]),
    h.2,
  )
