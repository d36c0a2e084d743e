-- ===== src/Schema/Tests.antt =====
-- Revisions of a concrete schema, and the theorems on schemas at them.
use hiway.Prelude.{ℕ, ◌≡◌, ◌↔◌, refl, List, [], ◌∷◌, ok, err}
use hiway.Schema.{
  FieldKind, FieldPresence, FieldSpec, Schema, SchemaError, validate_schema, validate_evolution,
  check_fields, check_reserved, keep_reserved, check_field, keep_fields, add_fields,
}
use hiway.Schema.Compatible.{IsWellFormed, IsCompatible, validate_schema_iff}
use hiway.Schema.Evolution.{validate_evolution_iff, validate_evolution_trans}

abbrev id_field : FieldSpec
id_field = record { tag = 1; kind = FieldKind.unsigned; presence = FieldPresence.required }

abbrev name_field : FieldSpec
name_field = record { tag = 2; kind = FieldKind.text; presence = FieldPresence.optional }

abbrev note_field : FieldSpec
note_field = record { tag = 3; kind = FieldKind.bytes; presence = FieldPresence.defaulted }

abbrev with_fields : ℕ → List FieldSpec → List ℕ → Schema
with_fields revision fields reserved = record {
  event = 9;
  wire_major = 1;
  revision = revision;
  fields = fields;
  reserved_tags = reserved;
}

abbrev first : Schema
first = with_fields 1 (id_field ∷ name_field ∷ []) []

abbrev second : Schema
second = with_fields 2 (id_field ∷ note_field ∷ []) (2 ∷ [])

abbrev third : Schema
third = with_fields 3 (id_field ∷ []) (2 ∷ 3 ∷ [])

first-second : validate_evolution first second ≡ ok tt
unfolding validate_evolution validate_schema check_fields check_reserved keep_reserved check_field
    keep_fields add_fields
first-second = refl

second-third : validate_evolution second third ≡ ok tt
unfolding validate_evolution validate_schema check_fields check_reserved keep_reserved check_field
    keep_fields add_fields
second-third = refl

-- A reserved tag is not free again.
third-first : validate_evolution third first ≡ err (SchemaError.reserved_tag_reused 2)
unfolding validate_evolution validate_schema check_fields check_reserved keep_reserved check_field
    keep_fields add_fields
third-first = refl

validate_schema_iff_example : (validate_schema second ≡ ok tt) ↔ IsWellFormed second
validate_schema_iff_example = validate_schema_iff second

validate_evolution_iff_example :
    (validate_evolution first second ≡ ok tt) ↔ IsCompatible first second
validate_evolution_iff_example = validate_evolution_iff first second

validate_evolution_trans_example : validate_evolution first third ≡ ok tt
validate_evolution_trans_example =
    validate_evolution_trans first second third first-second second-third
