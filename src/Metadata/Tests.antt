-- ===== src/Metadata/Tests.antt =====
-- A hop budget at a concrete value.
use hiway.Prelude.{◌≡◌, refl, none, some, [], ◌∷◌}
use hiway.Metadata.{EventMetadata, dedup_key, consume_hop}
use hiway.Metadata.Hops.{hops, allowance, hops-allowance}

abbrev budgeted : EventMetadata
budgeted = record {
  origin = 7 ∷ [];
  sequence = 4;
  origin_time = 9;
  ttl = some 2;
  fabric_sequence = none;
}

budgeted-hops : (hops 5 budgeted).0 ≡ 2
unfolding hops consume_hop
budgeted-hops = refl

hops-allowance_example :
    ((hops 5 budgeted).0 ≡ allowance (some 2) 5)
    × (dedup_key (hops 5 budgeted).1 ≡ dedup_key budgeted)
hops-allowance_example = hops-allowance 5 budgeted
