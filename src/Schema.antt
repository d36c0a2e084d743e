-- ===== src/Schema.antt =====
-- hiway/src/schema.rs: schema manifests and the checks of one and of a revision of it.
pub mod Compatible
pub mod Evolution
mod Tests
use hiway.Prelude.{
  ℕ, Bool, true, false, not, ◌&&◌, ◌||◌, Option, none, some, List, [], ◌∷◌, ◌==◌, if◌then◌else◌,
  any, Result, ok, err, panic,
}
use hiway.Event.{EventId}
use hiway.Metadata.{WireMajor, SchemaRevision}

pub data FieldKind : Type 0 where
  bool unsigned signed text bytes : FieldKind
  message : EventId → FieldKind

pub data FieldPresence : Type 0 where
  required optional defaulted : FieldPresence

pub record FieldSpec : Type 0 where
  pub tag : ℕ
  pub kind : FieldKind
  pub presence : FieldPresence

pub record Schema : Type 0 where
  pub event : EventId
  pub wire_major : WireMajor
  pub revision : SchemaRevision
  pub fields : List FieldSpec
  pub reserved_tags : List ℕ

pub data SchemaError : Type 0 where
  duplicate_tag field_kind_changed newly_required : ℕ → SchemaError
  required_field_made_optional required_field_removed removed_tag_not_reserved : ℕ → SchemaError
  reserved_tag_reused reserved_tag_removed : ℕ → SchemaError
  event_changed major_changed : SchemaError

-- `tags.contains(&tag)`
abbrev pub contains : List ℕ → ℕ → Bool
contains [] tag = false
contains (t ∷ ts) tag = t == tag || contains ts tag

-- `fields.iter().any(|field| field.tag == tag)`
abbrev pub has_tag : List FieldSpec → ℕ → Bool
has_tag [] tag = false
has_tag (f ∷ fs) tag = f.tag == tag || has_tag fs tag

-- `fields.iter().find(|field| field.tag == tag)`
abbrev pub find_tag : List FieldSpec → ℕ → Option FieldSpec
find_tag [] tag = none
find_tag (f ∷ fs) tag = if f.tag == tag then some f else find_tag fs tag

-- `presence == FieldPresence::Required`
abbrev pub is_required : FieldPresence → Bool
is_required required = true
is_required _ = false

-- `kind == other`
abbrev pub same_kind : FieldKind → FieldKind → Bool
same_kind bool bool = true
same_kind unsigned unsigned = true
same_kind signed signed = true
same_kind text text = true
same_kind bytes bytes = true
same_kind (message a) (message b) = a == b
same_kind _ _ = false

-- `first?; second`
abbrev pub and_then :
    Result (Unit {0}) SchemaError → Result (Unit {0}) SchemaError → Result (Unit {0}) SchemaError
and_then (ok done) second = second
and_then (err e) second = err e
and_then panic second = panic

-- The first loop of `validate_schema`, over the fields that are left.
unfoldable pub check_fields : List FieldSpec → List ℕ → Result (Unit {0}) SchemaError
check_fields [] reserved = ok tt
check_fields (f ∷ fs) reserved =
    if has_tag fs f.tag || contains reserved f.tag
    then err (SchemaError.duplicate_tag f.tag)
    else check_fields fs reserved

-- The second loop of `validate_schema`.
unfoldable pub check_reserved : List ℕ → Result (Unit {0}) SchemaError
check_reserved [] = ok tt
check_reserved (t ∷ ts) =
    if contains ts t then err (SchemaError.duplicate_tag t) else check_reserved ts

unfoldable pub validate_schema : Schema → Result (Unit {0}) SchemaError
unfolding check_fields check_reserved
validate_schema s =
    and_then (check_fields s.fields s.reserved_tags) (check_reserved s.reserved_tags)

-- The loop of `validate_evolution` over the reserved tags of the previous schema.
unfoldable pub keep_reserved : List ℕ → Schema → Result (Unit {0}) SchemaError
keep_reserved [] next = ok tt
keep_reserved (tag ∷ tags) next =
    if has_tag next.fields tag
    then err (SchemaError.reserved_tag_reused tag)
    else if not (contains next.reserved_tags tag)
    then err (SchemaError.reserved_tag_removed tag)
    else keep_reserved tags next

-- The check of one field of the previous schema, by the field of the next one with its tag.
unfoldable pub check_field : FieldSpec → Option FieldSpec → List ℕ → Result (Unit {0}) SchemaError
check_field old none reserved =
    if is_required old.presence
    then err (SchemaError.required_field_removed old.tag)
    else if not (contains reserved old.tag)
    then err (SchemaError.removed_tag_not_reserved old.tag)
    else ok tt
check_field old (some current) reserved =
    if not (same_kind old.kind current.kind)
    then err (SchemaError.field_kind_changed old.tag)
    else if is_required old.presence && not (is_required current.presence)
    then err (SchemaError.required_field_made_optional old.tag)
    else if not (is_required old.presence) && is_required current.presence
    then err (SchemaError.newly_required old.tag)
    else ok tt

-- The loop over the fields of the previous schema.
unfoldable pub keep_fields : List FieldSpec → Schema → Result (Unit {0}) SchemaError
unfolding check_field
keep_fields [] next = ok tt
keep_fields (old ∷ olds) next =
    and_then (check_field old (find_tag next.fields old.tag) next.reserved_tags)
      (keep_fields olds next)

-- The loop over the fields of the next schema.
unfoldable pub add_fields : List FieldSpec → List FieldSpec → Result (Unit {0}) SchemaError
add_fields previous [] = ok tt
add_fields previous (field ∷ fields) =
    if not (has_tag previous field.tag) && is_required field.presence
    then err (SchemaError.newly_required field.tag)
    else add_fields previous fields

unfoldable pub validate_evolution : Schema → Schema → Result (Unit {0}) SchemaError
unfolding validate_schema keep_reserved keep_fields add_fields
validate_evolution previous next = and_then (validate_schema previous) (
    and_then (validate_schema next) (
      if not (previous.event == next.event)
      then err SchemaError.event_changed
      else if not (previous.wire_major == next.wire_major)
      then err SchemaError.major_changed
      else and_then (keep_reserved previous.reserved_tags next)
          (and_then (keep_fields previous.fields next) (add_fields previous.fields next.fields))))
