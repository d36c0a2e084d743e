-- ===== src/Schema/Compatible.antt =====
-- When a schema is well-formed, and when a revision of it is compatible, in terms of fields and tags.
use hiway.Prelude.{
  ℕ, ◌≡◌, ◌↔◌, true, false, Option, none, some, List, [], ◌∷◌, Result, ok, err, panic, All, arith,
}
use hiway.Schema.{
  FieldKind, FieldSpec, Schema, SchemaError, contains, has_tag, find_tag, is_required, same_kind,
  and_then, check_fields, check_reserved, validate_schema, keep_reserved, check_field, keep_fields,
  add_fields,
}

-- No tag stands twice among fields and reserved tags.
abbrev pub AreDistinct : List FieldSpec → List ℕ → Type 0
AreDistinct [] [] = Unit
AreDistinct [] (tag ∷ tags) = (contains tags tag ≡ false) × AreDistinct [] tags
AreDistinct (f ∷ fs) tags =
    (has_tag fs f.tag ≡ false) × (contains tags f.tag ≡ false) × AreDistinct fs tags

abbrev pub IsWellFormed : Schema → Type 0
IsWellFormed s = AreDistinct s.fields s.reserved_tags

-- A reserved tag is not in use and stays reserved.
abbrev pub StaysReserved : Schema → ℕ → Type 0
StaysReserved next tag =
    (has_tag next.fields tag ≡ false) × (contains next.reserved_tags tag ≡ true)

-- A field that is gone was not required, and its tag is reserved; one that is still there has its
-- kind and is required if it was.
abbrev pub IsKept : FieldSpec → Option FieldSpec → List ℕ → Type 0
IsKept old none reserved = (is_required old.presence ≡ false) × (contains reserved old.tag ≡ true)
IsKept old (some current) reserved =
    (old.kind ≡ current.kind) × (is_required old.presence ≡ is_required current.presence)

-- A field that the previous schema does not have is not required.
abbrev pub IsAdded : List FieldSpec → FieldSpec → Type 0
IsAdded previous field = has_tag previous field.tag ≡ false → is_required field.presence ≡ false

pub record IsCompatible (previous next : Schema) : Type 0 where
  pub previous_formed : IsWellFormed previous
  pub next_formed : IsWellFormed next
  pub event : previous.event ≡ next.event
  pub major : previous.wire_major ≡ next.wire_major
  pub reserved : All (StaysReserved next) previous.reserved_tags
  pub kept :
      All (λ old. IsKept old (find_tag next.fields old.tag) next.reserved_tags) previous.fields
  pub added : All (IsAdded previous.fields) next.fields

pub and_then_iff :
    (a b : Result (Unit {0}) SchemaError) → (and_then a b ≡ ok tt) ↔ ((a ≡ ok tt) × (b ≡ ok tt))
and_then_iff (ok done) b = ground arith
and_then_iff (err e) b = ground arith
and_then_iff panic b = ground arith

check_reserved_iff : (tags : List ℕ) → (check_reserved tags ≡ ok tt) ↔ AreDistinct [] tags
unfolding check_reserved
check_reserved_iff [] = ground arith
check_reserved_iff (tag ∷ tags) = ground (arith, check_reserved_iff tags)

validate_schema-iff_fields :
    (fields : List FieldSpec) (tags : List ℕ)
    → ((check_fields fields tags ≡ ok tt) × (check_reserved tags ≡ ok tt)) ↔ AreDistinct fields tags
unfolding check_fields
validate_schema-iff_fields [] tags = ground (arith, check_reserved_iff tags)
validate_schema-iff_fields (f ∷ fs) tags = ground (arith, validate_schema-iff_fields fs tags)

-- A schema is accepted exactly if no tag stands twice among its fields and reserved tags.
pub validate_schema_iff : (s : Schema) → (validate_schema s ≡ ok tt) ↔ IsWellFormed s
unfolding validate_schema
validate_schema_iff s = ground (
  arith,
  and_then_iff (check_fields s.fields s.reserved_tags) (check_reserved s.reserved_tags),
  validate_schema-iff_fields s.fields s.reserved_tags,
)

pub keep_reserved_iff :
    (tags : List ℕ) (next : Schema)
    → (keep_reserved tags next ≡ ok tt) ↔ All (StaysReserved next) tags
unfolding keep_reserved
keep_reserved_iff [] next = ground arith
keep_reserved_iff (tag ∷ tags) next = ground (arith, keep_reserved_iff tags next)

same_kind_iff : (a b : FieldKind) → (same_kind a b ≡ true) ↔ (a ≡ b)
same_kind_iff a b = grind arith

check_field_iff :
    (old : FieldSpec) (current : Option FieldSpec) (reserved : List ℕ)
    → (check_field old current reserved ≡ ok tt) ↔ IsKept old current reserved
unfolding check_field
check_field_iff old none reserved = ground arith
check_field_iff old (some current) reserved = ground (arith, same_kind_iff old.kind current.kind)

pub keep_fields_iff :
    (olds : List FieldSpec) (next : Schema)
    → (keep_fields olds next ≡ ok tt)
      ↔ All (λ old. IsKept old (find_tag next.fields old.tag) next.reserved_tags) olds
unfolding keep_fields
keep_fields_iff [] next = ground arith
keep_fields_iff (old ∷ olds) next =
    let current = find_tag next.fields old.tag in
    ground (
      arith,
      and_then_iff (check_field old current next.reserved_tags) (keep_fields olds next),
      check_field_iff old current next.reserved_tags,
      keep_fields_iff olds next,
    )

pub add_fields_iff :
    (previous fields : List FieldSpec)
    → (add_fields previous fields ≡ ok tt) ↔ All (IsAdded previous) fields
unfolding add_fields
add_fields_iff previous [] = ground arith
add_fields_iff previous (field ∷ fields) = ground (arith, add_fields_iff previous fields)
