-- ===== src/Grant/Tree/Restrict/Allowed.antt =====
-- Permissions that a grant allows stay allowed when they are sorted and merged.
use mathlib.Core.Path.{subst}
use hiway.Prelude.{
  ℕ, ◌≡◌, refl, inl, inr, true, Option, none, some, List, [], ◌∷◌, ◌==◌, ==_iff, leb, get_elem?,
  map, All, ok, arith, Bool-cases,
}
use hiway.Event.{EventId}
use hiway.Grant.{Permission, Rights, union, contains}
use hiway.Grant.Containment.{contains_trans, contains-union}
use hiway.Grant.Tree.{EventAllowance, GrantNode, Tree, find_index, permits, permitted, check}
use hiway.Grant.Tree.Restrict.{check_all, insert, sort_by_event, dedup_from, dedup, allowance}

-- What the permissions of a node allow can be joined, and passed on in part.
permitted-contains :
    (held : Option (List EventAllowance)) (event : EventId) (a b : Rights)
    → permitted held event a ≡ ok tt
    → contains a b ≡ true
    → permitted held event b ≡ ok tt
unfolding permitted permits
permitted-contains none event a b h c = refl
permitted-contains (some entries) event a b h c = grind (arith, contains_trans)

permitted-union :
    (held : Option (List EventAllowance)) (event : EventId) (a b : Rights)
    → permitted held event a ≡ ok tt
    → permitted held event b ≡ ok tt
    → permitted held event (union a b) ≡ ok tt
unfolding permitted permits
permitted-union none event a b h k = refl
permitted-union (some entries) event a b h k = grind (arith, contains-union)

-- Every one of these permissions is among what a node allows.
abbrev pub Allowed : Option (List EventAllowance) → Permission → Type 0
Allowed held p = permitted held p.event p.rights ≡ ok tt

check-permitted :
    (tree : Tree) (node : ℕ) (n : GrantNode) (event : EventId) (right : Rights)
    → get_elem? tree node ≡ some n
    → check tree node event right ≡ ok tt
    → permitted n.permissions event right ≡ ok tt
unfolding check
check-permitted tree node n event right at e = grind arith

pub check_all-Allowed :
    (tree : Tree) (node : ℕ) (n : GrantNode) (ps : List Permission)
    → get_elem? tree node ≡ some n
    → check_all tree node ps ≡ ok tt
    → All (Allowed n.permissions) ps
unfolding check_all
check_all-Allowed tree node n [] at e = tt
check_all-Allowed tree node n (p ∷ ps) at e = (
  check-permitted tree node n p.event p.rights at (grind arith),
  check_all-Allowed tree node n ps at (grind arith),
)

insert-All :
    (P : Permission → Type 0) (p : Permission) (ps : List Permission)
    → P p
    → All P ps
    → All P (insert p ps)
unfolding insert
insert-All P p [] h k = (h, tt)
insert-All P p (q ∷ qs) h k = elim (Bool-cases (leb p.event q.event)) [
  | inl before ↦ rw (before) (h, k)
  | inr after ↦ rw (after) (k.0, insert-All P p qs h k.1)
]

pub sort-All :
    (P : Permission → Type 0) (ps : List Permission) → All P ps → All P (sort_by_event ps)
unfolding sort_by_event
sort-All P [] h = tt
sort-All P (p ∷ ps) h = insert-All P p (sort_by_event ps) h.0 (sort-All P ps h.1)

dedup_from-Allowed :
    (held : Option (List EventAllowance)) (earlier : Permission) (ps : List Permission)
    → Allowed held earlier
    → All (Allowed held) ps
    → All (Allowed held) (dedup_from earlier ps)
unfolding dedup_from
dedup_from-Allowed held earlier [] h k = (h, tt)
dedup_from-Allowed held earlier (later ∷ rest) h k =
    elim (Bool-cases (later.event == earlier.event)) [
      | inl same ↦ rw (same) (
          dedup_from-Allowed held (record earlier { rights = union earlier.rights later.rights })
            rest
            (permitted-union held earlier.event earlier.rights later.rights h (
              subst (λ event. permitted held event later.rights ≡ ok tt)
                ((==_iff later.event earlier.event).0 same) k.0))
            k.1)
      | inr other ↦ rw (other) (h, dedup_from-Allowed held later rest k.0 k.1)
    ]

pub dedup-Allowed :
    (held : Option (List EventAllowance)) (ps : List Permission)
    → All (Allowed held) ps
    → All (Allowed held) (dedup ps)
unfolding dedup
dedup-Allowed held [] h = tt
dedup-Allowed held (p ∷ ps) h = dedup_from-Allowed held p ps h.0 h.1

-- A list of allowed permissions allows no more than what allows them.
pub permits-Allowed :
    (held : Option (List EventAllowance)) (ps : List Permission) (event : EventId) (right : Rights)
    → All (Allowed held) ps
    → permits (map allowance ps) event right ≡ ok tt
    → permitted held event right ≡ ok tt
unfolding permits find_index
permits-Allowed held [] event right h e = absurd (grind arith)
permits-Allowed held (p ∷ ps) event right h e = elim (Bool-cases (p.event == event)) [
  | inl same ↦
      subst (λ event. permitted held event right ≡ ok tt) ((==_iff p.event event).0 same)
        (permitted-contains held p.event p.rights right h.0 (grind arith))
  | inr other ↦ permits-Allowed held ps event right h.1 (grind arith)
]
