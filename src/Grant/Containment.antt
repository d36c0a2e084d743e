-- ===== src/Grant/Containment.antt =====
-- Rights as sets: containment is transitive, and a union is contained in what contains its parts.
use hiway.Prelude.{
  ℕ, zero, suc, ◌+◌, ◌/◌, ◌%◌, ◌≤◌, ◌≡◌, true, min, max, arith, ==_iff, bit_and, bit_or,
}
use hiway.Prelude.Masks.{bit_and_step, bit_or_step}
use hiway.Grant.{Rights, contains, union}

-- A set contains another if it does so in the lowest digit and above it.
half_contained :
    (a b : ℕ) → bit_and a b ≡ b → (bit_and (a / 2) (b / 2) ≡ b / 2) × (min (a % 2) (b % 2) ≡ b % 2)
half_contained a b h = (omega (arith, bit_and_step a b), omega (arith, bit_and_step a b))

trans_below : (n a b c : ℕ) → a ≤ n → b ≤ n → bit_and a b ≡ b → bit_and b c ≡ c → bit_and a c ≡ c
trans_below zero zero zero c p q h k = k
trans_below zero (suc a) b c p q h k = absurd (omega arith)
trans_below zero a (suc b) c p q h k = absurd (omega arith)
trans_below (suc n) a b c p q h k =
    let (ab, low) = half_contained a b h in
    let (bc, low') = half_contained b c k in
    omega (
      arith,
      bit_and_step a c,
      trans_below n (a / 2) (b / 2) (c / 2) (omega arith) (omega arith) ab bc,
    )

or_half :
    (b c : ℕ) → (bit_or b c / 2 ≡ bit_or (b / 2) (c / 2)) × (bit_or b c % 2 ≡ max (b % 2) (c % 2))
or_half b c = (omega (arith, bit_or_step b c), omega (arith, bit_or_step b c))

union_below :
    (n a b c : ℕ)
    → b + c ≤ n
    → bit_and a b ≡ b
    → bit_and a c ≡ c
    → bit_and a (bit_or b c) ≡ bit_or b c
union_below zero a zero zero p h k = h
union_below zero a (suc b) c p h k = absurd (omega arith)
union_below zero a b (suc c) p h k = absurd (omega arith)
union_below (suc n) a b c p h k =
    let (ab, low) = half_contained a b h in
    let (ac, low') = half_contained a c k in
    let (half, last) = or_half b c in
    rw
      (
        bit_and_step a (bit_or b c),
        half,
        last,
        union_below n (a / 2) (b / 2) (c / 2) (omega arith) ab ac,
      )
      (omega (arith, bit_or_step b c))

pub contains_trans :
    (a b c : Rights) → contains a b ≡ true → contains b c ≡ true → contains a c ≡ true
unfolding contains
contains_trans a b c h k = (==_iff (bit_and a c) c).1 (
    trans_below (a + b) a b c (omega arith) (omega arith) ((==_iff (bit_and a b) b).0 h)
      ((==_iff (bit_and b c) c).0 k))

pub contains-union :
    (a b c : Rights) → contains a b ≡ true → contains a c ≡ true → contains a (union b c) ≡ true
unfolding contains union
contains-union a b c h k = (==_iff (bit_and a (bit_or b c)) (bit_or b c)).1 (
    union_below (b + c) a b c (omega arith) ((==_iff (bit_and a b) b).0 h)
      ((==_iff (bit_and a c) c).0 k))
