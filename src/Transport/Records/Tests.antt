-- ===== src/Transport/Records/Tests.antt =====
-- A concrete run of the records, and their theorem at a concrete input.
use hiway.Prelude.{ℕ, ◌≡◌, refl, none, some, List, [], ◌∷◌}
use hiway.Transport.Records.{new, push, pop}
use hiway.Transport.Records.Runs.{Call, pushes, pops, run, run_queue, run-new}

abbrev script : List (Call ℕ)
script = pushes 1 ∷ pushes 2 ∷ pushes 3 ∷ pops ∷ pops ∷ pops ∷ []

run-script :
    run 2 (new 2) script
    ≡ (none, 0) ∷ (none, 0) ∷ (none, 1) ∷ (some 2, 1) ∷ (some 3, 1) ∷ (none, 1) ∷ []
unfolding run new push pop
run-script = refl

run-new_example : run 2 (new 2) script ≡ run_queue 2 (record { held = []; lost = 0 }) script
run-new_example = run-new 2 script
