-- ===== src/Event/Order.antt =====
-- `Delivery::follows`.
use hiway.Prelude.{ℕ, ◌+◌, ◌<◌, ◌^◌, ◌≡◌, ◌↔◌, true, arith}
use hiway.Event.{Delivery, ordered, latest, follows}

-- On an ordered stream exactly the successor follows; the last u64 has no successor.
pub follows_ordered :
    (previous next : ℕ)
    → next < 2 ^ 64
    → (follows ordered previous next ≡ true) ↔ (next ≡ previous + 1)
unfolding follows
follows_ordered previous next h = ground arith

-- Whatever follows is later.
pub follows-lt :
    (delivery : Delivery) (previous next : ℕ)
    → follows delivery previous next ≡ true
    → previous < next
unfolding follows
follows-lt ordered previous next h = ground arith
follows-lt latest previous next h = ground arith
