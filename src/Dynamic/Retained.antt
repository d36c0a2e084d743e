-- ===== src/Dynamic/Retained.antt =====
-- The entries of a stream are consecutive up to its tail and within its capacity, no cursor is past
-- the tail, and nothing is retired that a live required cursor has yet to read.
use mathlib.Core.Path.{subst, sym}
use hiway.Prelude.{
  ℕ, ◌+◌, ◌<◌, ◌≤◌, ◌≡◌, refl, Bool, true, false, not, ◌&&◌, Option, none, some, List, [], ◌∷◌,
  ◌++◌, length, length-append, any, All, All-map, arith, u64_max,
}
use hiway.Dynamic.{Entry, Cursor, State, is_required, needs, front_is, pop_front}
use hiway.Dynamic.Calls.{head}

module _ {T : Type 0} where
  unfoldable pub Consecutive : ℕ → List (Entry T) → ℕ → Type 0
  Consecutive n [] tail = n ≡ tail
  Consecutive n (e ∷ es) tail = (e.sequence ≡ n) × Consecutive (n + 1) es tail

-- A cursor is not past the tail, and a live required one has lost nothing.
unfoldable pub Fine : (ℕ → Bool) → ℕ → ℕ → Option Cursor → Type 0
Fine revoked first tail none = Unit
Fine revoked first tail (some c) =
    (c.next ≤ tail) × ((is_required c.role && not (revoked c.grant)) ≡ true → first ≤ c.next)

module _ {T : Type 0} where
  abbrev pub Sound : ℕ → (ℕ → Bool) → List (Entry T) → List (Option Cursor) → ℕ → Type 0
  Sound capacity revoked entries subscribers tail =
      Consecutive (head entries tail) entries tail
      × (length entries ≤ capacity)
      × (tail ≤ u64_max)
      × All (Fine revoked (head entries tail) tail) subscribers

  abbrev pub Valid : ℕ → (ℕ → Bool) → State T → Type 0
  Valid capacity revoked s = Sound capacity revoked s.entries s.subscribers s.tail

  -- The head after the front is gone.
  head_next :
      (e : Entry T) (es : List (Entry T)) (n tail : ℕ)
      → Consecutive n (e ∷ es) tail
      → (head es tail ≡ n + 1) × Consecutive (head es tail) es tail
  unfolding head Consecutive
  head_next e [] n tail h = (omega arith, refl)
  head_next e (x ∷ es) n tail h =
      (h.1.0, (refl, subst (λ m. Consecutive (m + 1) es tail) (sym h.1.0) h.1.1))

unneeded-Fine :
    (revoked : ℕ → Bool) (first tail : ℕ) (c : Option Cursor)
    → needs revoked first c ≡ false
    → Fine revoked first tail c
    → Fine revoked (first + 1) tail c
unfolding needs Fine
unneeded-Fine revoked first tail none e h = tt
unneeded-Fine revoked first tail (some c) e h = (h.0, λ live. grind arith)

All-unneeded :
    (revoked : ℕ → Bool) (first tail : ℕ) (cs : List (Option Cursor))
    → any (needs revoked first) cs ≡ false
    → All (Fine revoked first tail) cs
    → All (Fine revoked (first + 1) tail) cs
All-unneeded revoked first tail [] e h = tt
All-unneeded revoked first tail (c ∷ cs) e h = (
  unneeded-Fine revoked first tail c (ground arith) h.0,
  All-unneeded revoked first tail cs (ground arith) h.1,
)

-- A later tail keeps every cursor fine.
later-Fine :
    (revoked : ℕ → Bool) (first tail : ℕ) (c : Option Cursor)
    → Fine revoked first tail c
    → Fine revoked first (tail + 1) c
unfolding Fine
later-Fine revoked first tail none h = tt
later-Fine revoked first tail (some c) h = (omega arith, h.1)

module _ {T : Type 0} where
  -- The front may go if no live required cursor needs it.
  pub pop-Sound :
      (capacity : ℕ) (revoked : ℕ → Bool) (entries : List (Entry T)) (cs : List (Option Cursor))
      (tail : ℕ)
      → front_is (λ sequence. any (needs revoked sequence) cs) entries ≡ false
      → Sound capacity revoked entries cs tail
      → Sound capacity revoked (pop_front entries) cs tail
  unfolding front_is head Consecutive
  pop-Sound capacity revoked [] cs tail e h = h
  pop-Sound capacity revoked (x ∷ es) cs tail e h =
      let (next, rest) = head_next x es (head (x ∷ es) tail) tail h.0 in
      (
        rest,
        omega arith,
        h.2,
        subst (λ first. All (Fine revoked first tail) cs) (sym next)
            (All-unneeded revoked x.sequence tail cs e h.3),
      )

  -- One more entry at the tail.
  append-Consecutive :
      (n : ℕ) (entries : List (Entry T)) (tail : ℕ) (e : Entry T)
      → Consecutive n entries tail
      → e.sequence ≡ tail
      → Consecutive n (entries ++ e ∷ []) (tail + 1)
  unfolding Consecutive
  append-Consecutive n [] tail e h at = (omega arith, omega arith)
  append-Consecutive n (x ∷ es) tail e h at = (h.0, append-Consecutive (n + 1) es tail e h.1 at)

  head-append :
      (entries : List (Entry T)) (tail : ℕ) (e : Entry T)
      → e.sequence ≡ tail
      → head (entries ++ e ∷ []) (tail + 1) ≡ head entries tail
  unfolding head
  head-append [] tail e at = at
  head-append (x ∷ es) tail e at = refl

  pub push-Sound :
      (capacity : ℕ) (revoked : ℕ → Bool) (entries : List (Entry T)) (cs : List (Option Cursor))
      (tail : ℕ) (e : Entry T)
      → e.sequence ≡ tail
      → length entries < capacity
      → tail < u64_max
      → Sound capacity revoked entries cs tail
      → Sound capacity revoked (entries ++ e ∷ []) cs (tail + 1)
  push-Sound capacity revoked entries cs tail e at room small h =
      let same = head-append entries tail e at in
      (
        subst (λ n. Consecutive n (entries ++ e ∷ []) (tail + 1)) (sym same)
            (append-Consecutive (head entries tail) entries tail e h.0 at),
        omega (arith, length-append entries (e ∷ [])),
        omega arith,
        subst (λ first. All (Fine revoked first (tail + 1)) cs) (sym same)
            (All-map (Fine revoked (head entries tail) tail)
              (Fine revoked (head entries tail) (tail + 1)) cs
              (λ c. later-Fine revoked (head entries tail) tail c) h.3),
      )

-- A sequence that is not needed is needed by no earlier one.
pub earlier-needs :
    (revoked : ℕ → Bool) (first later : ℕ) (cs : List (Option Cursor))
    → first ≤ later
    → any (needs revoked later) cs ≡ false
    → any (needs revoked first) cs ≡ false
unfolding needs
earlier-needs revoked first later [] h e = refl
earlier-needs revoked first later (none ∷ cs) h e = earlier-needs revoked first later cs h e
earlier-needs revoked first later (some c ∷ cs) h e =
    grind (arith, earlier-needs revoked first later cs h)

module _ {T : Type 0} where
  pub Consecutive-le :
      (n : ℕ) (entries : List (Entry T)) (tail : ℕ) → Consecutive n entries tail → n ≤ tail
  unfolding Consecutive
  Consecutive-le n [] tail h = omega arith
  Consecutive-le n (x ∷ es) tail h = omega (arith, Consecutive-le (n + 1) es tail h.1)
