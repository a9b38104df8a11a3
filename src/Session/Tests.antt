-- ===== src/Session/Tests.antt =====
-- Messages and a clear in two sessions with a cap of two.
use blue_tanuki.Base.{ℕ, ◌≡◌, refl, some, List, [], ◌∷◌}
use blue_tanuki.Session.{drop, limited, get_messages}
use blue_tanuki.Session.Refinement.{
  SessionOp, append, clear, run_ops, replay, latest, run_ops-refines,
}

abbrev calls : List (SessionOp ℕ)
calls =
    append "s" 1
    ∷ append "t" 5
    ∷ append "" 9
    ∷ clear "s"
    ∷ append "s" 7
    ∷ append "s" 8
    ∷ append "s" 9
    ∷ []

last_two : latest 2 (replay (λ _. []) calls "s") ≡ 8 ∷ 9 ∷ []
unfolding drop
last_two = refl

run_ops-refines_example :
    get_messages (run_ops (record { cap = 2; store = [] }) calls) "s" (some 1)
    ≡ limited (latest 2 (replay (λ _. []) calls "s")) (some 1)
run_ops-refines_example = run_ops-refines 2 calls "s" (some 1)
