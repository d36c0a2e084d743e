-- ===== src/Schema/Evolution.antt =====
-- `validate_evolution` accepts the compatible revisions, and revisions of revisions are compatible.
use mathlib.Core.Path.{subst, sym, ◌∙◌}
use hiway.Prelude.{
  ℕ, ◌≡◌, ◌↔◌, refl, true, false, Option, none, some, List, [], ◌∷◌, ok, All, All-map, ==_iff,
  arith,
}
use hiway.Schema.{
  FieldSpec, Schema, contains, has_tag, find_tag, is_required, validate_schema, keep_reserved,
  keep_fields, add_fields, validate_evolution,
}
use hiway.Schema.Compatible.{
  AreDistinct, StaysReserved, IsKept, IsAdded, IsCompatible, validate_schema_iff, keep_reserved_iff,
  keep_fields_iff, add_fields_iff,
}

evolution_parts :
    (p n : Schema)
    → (validate_evolution p n ≡ ok tt) ↔ (
        (validate_schema p ≡ ok tt)
        × (validate_schema n ≡ ok tt)
        × (p.event ≡ n.event)
        × (p.wire_major ≡ n.wire_major)
        × (keep_reserved p.reserved_tags n ≡ ok tt)
        × (keep_fields p.fields n ≡ ok tt)
        × (add_fields p.fields n.fields ≡ ok tt))
unfolding validate_evolution
evolution_parts p n = grind arith

-- A revision is accepted exactly if both schemas are well-formed, event and major stay, and reserved
-- tags, kept fields and added fields are compatible.
pub validate_evolution_iff : (p n : Schema) → (validate_evolution p n ≡ ok tt) ↔ IsCompatible p n
validate_evolution_iff p n = (
  λ e.
      let (formed_p, formed_n, event, major, reserved, kept, added) = (evolution_parts p n).0 e in
      record {
        previous_formed = (validate_schema_iff p).0 formed_p;
        next_formed = (validate_schema_iff n).0 formed_n;
        event = event;
        major = major;
        reserved = (keep_reserved_iff p.reserved_tags n).0 reserved;
        kept = (keep_fields_iff p.fields n).0 kept;
        added = (add_fields_iff p.fields n.fields).0 added;
      },
  λ c. (evolution_parts p n).1 (
    (validate_schema_iff p).1 c.previous_formed,
    (validate_schema_iff n).1 c.next_formed,
    c.event,
    c.major,
    (keep_reserved_iff p.reserved_tags n).1 c.reserved,
    (keep_fields_iff p.fields n).1 c.kept,
    (add_fields_iff p.fields n.fields).1 c.added,
  ),
)

All-zip :
    {A : Type 0} (P Q R : A → Type 0) (xs : List A)
    → ((a : A) → P a → Q a → R a)
    → All P xs
    → All Q xs
    → All R xs
All-zip P Q R [] f p q = tt
All-zip P Q R (x ∷ xs) f p q = (f x p.0 q.0, All-zip P Q R xs f p.1 q.1)

All-contains :
    (P : ℕ → Type 0) (tags : List ℕ) (tag : ℕ) → contains tags tag ≡ true → All P tags → P tag
All-contains P [] tag c h = absurd (ground arith)
All-contains P (t ∷ ts) tag c h = ground (arith, All-contains P ts tag)

find_tag-some :
    (P : FieldSpec → Type 0) (fs : List FieldSpec) (tag : ℕ) (f : FieldSpec)
    → find_tag fs tag ≡ some f
    → All P fs
    → (f.tag ≡ tag) × P f
find_tag-some P [] tag f e h = absurd (ground arith)
find_tag-some P (g ∷ gs) tag f e h = ground (arith, find_tag-some P gs tag f)

find_tag-none_iff :
    (fs : List FieldSpec) (tag : ℕ) → (has_tag fs tag ≡ false) ↔ (find_tag fs tag ≡ none)
find_tag-none_iff [] tag = ground arith
find_tag-none_iff (f ∷ fs) tag = ground (arith, find_tag-none_iff fs tag)

find_tag-later :
    (f g : FieldSpec) (fs : List FieldSpec)
    → has_tag fs f.tag ≡ false
    → find_tag fs g.tag ≡ some g
    → find_tag (f ∷ fs) g.tag ≡ some g
find_tag-later f g fs h e = grind (arith, (find_tag-none_iff fs f.tag).0 h)

-- In a well-formed schema every field is the one that its tag finds.
find_tag_self :
    (fs : List FieldSpec) (tags : List ℕ)
    → AreDistinct fs tags
    → All (λ f. find_tag fs f.tag ≡ some f) fs
find_tag_self [] tags d = tt
find_tag_self (f ∷ fs) tags d = (
  ground (arith, (==_iff f.tag f.tag).1 refl),
  All-map (λ g. find_tag fs g.tag ≡ some g) (λ g. find_tag (f ∷ fs) g.tag ≡ some g) fs
      (λ g. find_tag-later f g fs d.0) (find_tag_self fs tags d.2),
)

module _ (a b c : Schema) (ab : IsCompatible a b) (bc : IsCompatible b c) where
  reserved_trans : (tag : ℕ) → contains b.reserved_tags tag ≡ true → StaysReserved c tag
  reserved_trans tag h = All-contains (StaysReserved c) b.reserved_tags tag h bc.reserved

  -- A field that goes to `g` in the second schema goes on as `g` does.
  kept_later :
      (old g : FieldSpec) (later : Option FieldSpec)
      → old.kind ≡ g.kind
      → is_required old.presence ≡ is_required g.presence
      → g.tag ≡ old.tag
      → IsKept g later c.reserved_tags
      → IsKept old later c.reserved_tags
  kept_later old g none k r t h =
      (r ∙ h.0, subst (λ tag. contains c.reserved_tags tag ≡ true) t h.1)
  kept_later old g (some f) k r t h = (k ∙ h.0, r ∙ h.1)

  kept_trans :
      (old : FieldSpec) (current : Option FieldSpec)
      → find_tag b.fields old.tag ≡ current
      → IsKept old current b.reserved_tags
      → IsKept old (find_tag c.fields old.tag) c.reserved_tags
  kept_trans old none e h =
      let stays = reserved_trans old.tag h.1 in
      subst (λ found. IsKept old found c.reserved_tags)
        (sym ((find_tag-none_iff c.fields old.tag).0 stays.0)) (h.0, stays.1)
  kept_trans old (some g) e h =
      let (same, later) =
        find_tag-some (λ x. IsKept x (find_tag c.fields x.tag) c.reserved_tags) b.fields old.tag g e
          bc.kept in
      kept_later old g (find_tag c.fields old.tag) h.0 h.1 same
        (subst (λ t. IsKept g (find_tag c.fields t) c.reserved_tags) same later)

  IsAdded-by :
      (f : FieldSpec) (found : Option FieldSpec)
      → find_tag b.fields f.tag ≡ found
      → find_tag c.fields f.tag ≡ some f
      → IsAdded b.fields f
      → IsAdded a.fields f
  IsAdded-by f none e self new absent = new ((find_tag-none_iff b.fields f.tag).1 e)
  IsAdded-by f (some g) e self new absent =
      let (same, kept_g) =
        find_tag-some (λ x. IsKept x (find_tag c.fields x.tag) c.reserved_tags) b.fields f.tag g e
          bc.kept in
      let (_, added_g) = find_tag-some (IsAdded a.fields) b.fields f.tag g e ab.added in
      let at_f : IsKept g (find_tag c.fields f.tag) c.reserved_tags =
        subst (λ t. IsKept g (find_tag c.fields t) c.reserved_tags) same kept_g in
      let to_f : IsKept g (some f) c.reserved_tags =
        subst (λ found. IsKept g found c.reserved_tags) self at_f in
      sym to_f.1 ∙ added_g (subst (λ t. has_tag a.fields t ≡ false) (sym same) absent)

  IsAdded-trans :
      (f : FieldSpec) → find_tag c.fields f.tag ≡ some f → IsAdded b.fields f → IsAdded a.fields f
  IsAdded-trans f self new absent = IsAdded-by f (find_tag b.fields f.tag) refl self new absent

-- Compatible revisions of compatible revisions are compatible.
pub IsCompatible-trans : (a b c : Schema) → IsCompatible a b → IsCompatible b c → IsCompatible a c
IsCompatible-trans a b c ab bc = record {
  previous_formed = ab.previous_formed;
  next_formed = bc.next_formed;
  event = ab.event ∙ bc.event;
  major = ab.major ∙ bc.major;
  reserved =
      All-map (StaysReserved b) (StaysReserved c) a.reserved_tags
        (λ tag h. reserved_trans a b c ab bc tag h.1) ab.reserved;
  kept =
      All-map (λ old. IsKept old (find_tag b.fields old.tag) b.reserved_tags)
        (λ old. IsKept old (find_tag c.fields old.tag) c.reserved_tags) a.fields
        (λ old. kept_trans a b c ab bc old (find_tag b.fields old.tag) refl) ab.kept;
  added =
      All-zip (λ f. find_tag c.fields f.tag ≡ some f) (IsAdded b.fields) (IsAdded a.fields) c.fields
        (IsAdded-trans a b c ab bc) (find_tag_self c.fields c.reserved_tags bc.next_formed)
        bc.added;
}

-- If each of two revisions in a row is accepted, the later one is accepted as a revision of the first.
pub validate_evolution_trans :
    (a b c : Schema)
    → validate_evolution a b ≡ ok tt
    → validate_evolution b c ≡ ok tt
    → validate_evolution a c ≡ ok tt
validate_evolution_trans a b c ab bc = (validate_evolution_iff a c).1 (
    IsCompatible-trans a b c ((validate_evolution_iff a b).0 ab)
      ((validate_evolution_iff b c).0 bc))
