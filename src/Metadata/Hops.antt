-- ===== src/Metadata/Hops.antt =====
-- How often a message with a hop budget is forwarded.
use hiway.Prelude.{ℕ, zero, suc, ◌+◌, ◌≡◌, min, Option, none, some, arith, if◌then◌else◌}
use hiway.Metadata.{EventMetadata, dedup_key, consume_hop}

-- The forwards among the next `tries` hops, and the metadata after them.
unfoldable pub hops : ℕ → EventMetadata → ℕ × EventMetadata
hops zero m = (0, m)
hops (suc tries) m =
    let (m', allowed) = consume_hop m in
    let (count, last) = hops tries m' in ((if allowed then count + 1 else count), last)

-- The forwards that a budget allows.
abbrev pub allowance : Option ℕ → ℕ → ℕ
allowance none tries = tries
allowance (some ttl) tries = min tries ttl

-- Of any number of hops exactly as many are allowed as the budget says, all of them without one,
-- and the key by which duplicates are found stays.
pub hops-allowance :
    (tries : ℕ) (m : EventMetadata)
    → ((hops tries m).0 ≡ allowance m.ttl tries) × (dedup_key (hops tries m).1 ≡ dedup_key m)
unfolding hops consume_hop dedup_key
hops-allowance zero m = ground arith
hops-allowance (suc tries) m = ground (arith, hops-allowance tries (consume_hop m).0)
