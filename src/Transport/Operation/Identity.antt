-- ===== src/Transport/Operation/Identity.antt =====
-- Identities of an operation slot over its uses, and the end of a use.
use mathlib.Core.Path.{ap, ◌∙◌}
use hiway.Prelude.{ℕ, ◌+◌, ◌%◌, ◌^◌, ◌<◌, ◌≡◌, ◌≢◌, true, Option, List, [], ◌∷◌, arith}
use hiway.Transport.Operation.{
  OpId, Phase, Operation, new, prepare, accepted, cancel, cancel_accepted, cancel_completed,
  completed, reclaim,
}
use hiway.Transport.Operation.Ledger.{
  Call, prepares, cancels, reclaims, accepts, cancel_accepts, cancel_completes, completes, Ledger,
  blank, step, run,
}

-- The identities that calls hand out.
abbrev pub handed : Operation × Ledger → Call → ℕ
handed s prepares = elim (prepare s.0).1 [ Option.none ↦ 0 | Option.some id ↦ 1 ]
handed s _ = 0

unfoldable pub all_handed : Operation × Ledger → List Call → ℕ
all_handed s [] = 0
all_handed s (c ∷ cs) = handed s c + all_handed (step s c) cs

abbrev InRange : Operation × Ledger → Type 0
InRange s = s.0.id.generation < 2 ^ 32

step-generation :
    (s : Operation × Ledger) (c : Call)
    → InRange s
    → ((step s c).0.id.generation ≡ (s.0.id.generation + handed s c) % 2 ^ 32)
      × ((step s c).0.id.slot ≡ s.0.id.slot)
unfolding step prepare accepted cancel cancel_accepted cancel_completed completed reclaim
step-generation (o, l) prepares h = ground arith
step-generation (o, l) (accepts id) h = ground arith
step-generation (o, l) cancels h = ground arith
step-generation (o, l) (cancel_accepts id) h = ground arith
step-generation (o, l) (cancel_completes id) h = ground arith
step-generation (o, l) (completes id) h = ground arith
step-generation (o, l) reclaims h = ground arith

run-generation :
    (s : Operation × Ledger) (cs : List Call)
    → InRange s
    → ((run s cs).0.id.generation ≡ (s.0.id.generation + all_handed s cs) % 2 ^ 32)
      × ((run s cs).0.id.slot ≡ s.0.id.slot)
unfolding run all_handed
run-generation s [] h = ground arith
run-generation s (c ∷ cs) h =
    let (g, slot) = step-generation s c h in
    let (later, same) = run-generation (step s c) cs (omega (arith, g)) in
    (omega (arith, g, later), same ∙ slot)

prepare-generation :
    (o : Operation) (id : OpId)
    → (prepare o).1 ≡ Option.some id
    → ((prepare o).0.id ≡ id) × (id.generation ≡ (o.id.generation + 1) % 2 ^ 32)
unfolding prepare
prepare-generation o id e = ground arith

-- After any calls on a new slot, an identity that is handed out differs from every identity handed out
-- later, as long as fewer than 2^32 - 1 others are handed out between the two.
pub prepare-fresh :
    (slot : ℕ) (cs later : List Call) (a b : OpId)
    → (prepare (run (new slot, blank) cs).0).1 ≡ Option.some a
    → (prepare (run (step (run (new slot, blank) cs) prepares) later).0).1 ≡ Option.some b
    → all_handed (step (run (new slot, blank) cs) prepares) later + 1 < 2 ^ 32
    → a ≢ b
unfolding step
prepare-fresh slot cs later a b first second few same =
    let s = run (new slot, blank) cs in
    let (given, range) = prepare-generation s.0 a first in
    let at_first : (step s prepares).0.id.generation ≡ a.generation =
      ap (λ id. id.generation) given in
    let (moved, kept) = run-generation (step s prepares) later (omega (arith, at_first, range)) in
    let (handed_b, next) = prepare-generation (run (step s prepares) later).0 b second in
    let equal : a.generation ≡ b.generation = ap (λ id. id.generation) same in
    omega (arith, at_first, range, moved, next, equal, few)

-- Closing a slot that is in use and reporting its terminal completions, in either order, makes it
-- reclaimable.
pub retire-reclaim :
    (o : Operation)
    → o.phase ≢ Phase.available
    → ((reclaim (cancel_completed (completed (cancel o) o.id).0 o.id).0).1 ≡ true)
      × ((reclaim (completed (cancel_completed (cancel o) o.id).0 o.id).0).1 ≡ true)
unfolding reclaim cancel_completed completed cancel
retire-reclaim o h = ground arith
