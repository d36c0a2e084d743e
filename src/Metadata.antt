-- ===== src/Metadata.antt =====
-- hiway/src/metadata.rs: wire generations, origins and the metadata of a routed event.
pub mod Hops
mod Tests
use hiway.Prelude.{ℕ, ◌-◌, Bool, true, false, Option, none, some, List, ◌==◌, if◌then◌else◌}
use hiway.Event.{EventId}

abbrev pub WireMajor : Type 0
WireMajor = ℕ

abbrev pub SchemaRevision : Type 0
SchemaRevision = ℕ

-- The sixteen bytes of an origin.
abbrev pub OriginId : Type 0
OriginId = List ℕ

pub record EventMetadata : Type 0 where
  pub origin : OriginId
  pub sequence : ℕ
  pub origin_time : ℕ
  pub ttl : Option ℕ
  pub fabric_sequence : Option ℕ

pub record DedupKey : Type 0 where
  pub origin : OriginId
  pub sequence : ℕ

unfoldable pub new : OriginId → ℕ → ℕ → EventMetadata
new origin sequence origin_time = record {
  origin = origin;
  sequence = sequence;
  origin_time = origin_time;
  ttl = none;
  fabric_sequence = none;
}

unfoldable pub dedup_key : EventMetadata → DedupKey
dedup_key m = record { origin = m.origin; sequence = m.sequence }

-- The metadata after the hop, and whether forwarding is allowed.
unfoldable pub consume_hop : EventMetadata → EventMetadata × Bool
consume_hop m = elim m.ttl [
  | none ↦ (m, true)
  | some ttl ↦ if ttl == 0 then (m, false) else (record m { ttl = some (ttl - 1) }, true)
]

pub record WireEnvelope : Type 0 where
  pub event : EventId
  pub wire_major : WireMajor
  pub schema_revision : SchemaRevision
  pub metadata : EventMetadata
  pub payload : List ℕ
