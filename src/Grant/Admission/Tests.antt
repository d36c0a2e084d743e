-- ===== src/Grant/Admission/Tests.antt =====
-- Two threads on the state word of one grant.
use hiway.Prelude.{◌↔◌, arith, ◌≡◌, refl, ◌≤◌, false, List, [], ◌∷◌, err, true}
use hiway.Errors.{TopicError}
use hiway.Grant.Admission.{
  is_drained, active, active_count, is_cut_off, count, count_deferred, counted, leave, cut_off,
  Action, Shared, step, run, is_revoked_by, fresh, advance, refusal,
}
use hiway.Grant.Admission.Cutoff.{leave-wakes, run-active, revoked-cutoff}

-- Two operations enter, one of them ends.
abbrev steps : List Action
steps = Action.enters ∷ Action.enters_deferred 1 ∷ Action.enters_deferred 1 ∷ Action.ends false ∷ []

-- The grant is revoked while one operation has not ended.
abbrev revocation : List Action
revocation = Action.enters ∷ Action.revokes ∷ Action.enters ∷ []

steps-operations : run fresh steps ≡ record { state = 1; operations = 1 }
unfolding run step counted count count_deferred advance refusal is_cut_off active leave
steps-operations = refl

revocation-state : (run fresh revocation).operations ≡ 1
unfolding run step counted count advance refusal is_cut_off active cut_off
revocation-state = refl

run-active_example :
    (active (run fresh steps).state ≡ (run fresh steps).operations)
    × ((run fresh steps).operations ≤ active_count)
    × (is_cut_off (run fresh steps).state ≡ is_revoked_by steps)
run-active_example = run-active steps

abbrev cut : Shared
cut = step (run fresh steps) Action.revokes

revoked-cutoff_example :
    (count (run cut steps).state ≡ ((run cut steps).state, err TopicError.revoked))
    × (counted (run cut steps) (count_deferred 1 (run cut steps).state) ≡ run cut steps)
    × ((run cut steps).operations ≤ cut.operations)
    × (active (run cut steps).state ≤ active cut.state)
revoked-cutoff_example = revoked-cutoff steps steps 1

leave-wakes_example : ((leave true (run fresh revocation).state).1 ≡ true) ↔ (
    (is_revoked_by revocation ≡ true)
    × (is_drained (step (run fresh revocation) (Action.ends true)).state ≡ true))
leave-wakes_example = leave-wakes revocation (omega (arith, revocation-state))
