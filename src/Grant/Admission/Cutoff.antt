-- ===== src/Grant/Admission/Cutoff.antt =====
-- The word counts the operations exactly, and revocation is a cutoff for their admission.
use mathlib.Core.Path.{subst, sym}
use hiway.Prelude.{
  ℕ, ◌+◌, ◌-◌, ◌^◌, ◌<◌, ◌≤◌, ◌≡◌, refl, ◌↔◌, ◌⊎◌, inl, inr, Bool, true, false, ◌||◌, none, some,
  List, [], ◌∷◌, Result, ok, err, arith,
}
use hiway.Prelude.Masks.{
  bit_and-low, bit_and-high, bit_and_mask_low, bit_and_mask_high, bit_or-low, bit_or-high,
}
use hiway.Errors.{TopicError}
use hiway.Grant.Admission.{
  active_count, is_cut_off, active, advance, refusal, count, count_deferred, leave, cut_off,
  is_drained, Shared, Action, counted, step, run, is_revoked_by, fresh,
}

-- The word of a grant that is revoked or not and has `n` operations.
unfoldable pub word : Bool → ℕ → ℕ
word true n = 2 ^ 63 + n
word false n = n

word-is_cut_off : (b : Bool) (n : ℕ) → n < 2 ^ 63 → is_cut_off (word b n) ≡ b
unfolding is_cut_off word
word-is_cut_off true n h = rw (bit_and-high 63 n h) refl
word-is_cut_off false n h = rw (bit_and-low 63 n h) refl

word-active : (b : Bool) (n : ℕ) → n < 2 ^ 63 → active (word b n) ≡ n
unfolding active word
word-active true n h = bit_and_mask_high 63 n h
word-active false n h = bit_and_mask_low 63 n h

word-cut_off : (b : Bool) (n : ℕ) → n < 2 ^ 63 → (cut_off (word b n)).0 ≡ word true n
unfolding cut_off word
word-cut_off true n h = bit_or-high 63 n h
word-cut_off false n h = bit_or-low 63 n h

word-suc : (b : Bool) (n : ℕ) → word b n + 1 ≡ word b (n + 1)
unfolding word
word-suc true n = omega arith
word-suc false n = omega arith

word-leave :
    (b notify : Bool) (n : ℕ) → n < 2 ^ 63 → 0 < n → (leave notify (word b n)).0 ≡ word b (n - 1)
unfolding word leave
word-leave true notify n h p = omega arith
word-leave false notify n h p = omega arith

-- The word counts the operations, and its bit says whether the grant is revoked.
abbrev pub Counts : Bool → Shared → Type 0
Counts b s = (s.state ≡ word b s.operations) × (s.operations ≤ active_count)

advance-cut : (n : ℕ) → n ≤ active_count → advance (word true n) ≡ none
unfolding advance
advance-cut n h = rw (word-is_cut_off true n (omega arith)) refl

-- A word that advances is that of an open grant with room for the operation.
advance-open :
    (b : Bool) (n next : ℕ)
    → n ≤ active_count
    → advance (word b n) ≡ some next
    → (b ≡ false) × (next ≡ word b (n + 1)) × (n < active_count)
unfolding advance
advance-open b n next h e =
    grind (arith, word-is_cut_off b n (omega arith), word-active b n (omega arith), word-suc b n)

-- Counting an operation either leaves the word, or the grant is not revoked.
abbrev Entered : Bool → Shared → ℕ × Result (Unit {0}) TopicError → Type 0
Entered b s r =
    ((r.0 ≡ s.state) × (counted s r ≡ s))
    ⊎ ((b ≡ false) × (r ≡ (word b (s.operations + 1), ok tt)) × (s.operations < active_count))

count-Entered : (b : Bool) (s : Shared) → Counts b s → Entered b s (count s.state)
unfolding count counted
count-Entered b s h = grind (arith, advance-open b s.operations)

count_deferred-Entered :
    (b : Bool) (loaded : ℕ) (s : Shared) → Counts b s → Entered b s (count_deferred loaded s.state)
unfolding count_deferred counted
count_deferred-Entered b loaded s h = grind (arith, advance-open b s.operations)

Entered-Counts :
    (b : Bool) (s : Shared) (r : ℕ × Result (Unit {0}) TopicError)
    → Counts b s
    → Entered b s r
    → Counts b (counted s r)
unfolding counted
Entered-Counts b s r h (inl (e, kept)) = grind arith
Entered-Counts b s r h (inr (unset, e, room)) = grind arith

-- Whether the bit is set after a step.
unfoldable set_by : Bool → Action → Bool
set_by b Action.revokes = true
set_by b _ = b

step-Counts : (b : Bool) (s : Shared) (a : Action) → Counts b s → Counts (set_by b a) (step s a)
unfolding step set_by
step-Counts b s Action.enters h = Entered-Counts b s (count s.state) h (count-Entered b s h)
step-Counts b s (Action.enters_deferred loaded) h =
    Entered-Counts b s (count_deferred loaded s.state) h (count_deferred-Entered b loaded s h)
step-Counts b s (Action.ends notify) h = grind (arith, word-leave b notify s.operations)
step-Counts b s Action.revokes h = grind (arith, word-cut_off b s.operations)

set_by-rest :
    (b : Bool) (a : Action) (rest : List Action)
    → (set_by b a || is_revoked_by rest) ≡ (b || is_revoked_by (a ∷ rest))
unfolding set_by is_revoked_by
set_by-rest true Action.revokes rest = refl
set_by-rest false Action.revokes rest = refl
set_by-rest b Action.enters rest = refl
set_by-rest b (Action.enters_deferred loaded) rest = refl
set_by-rest b (Action.ends notify) rest = refl

run-Counts :
    (b : Bool) (s : Shared) (actions : List Action)
    → Counts b s
    → Counts (b || is_revoked_by actions) (run s actions)
unfolding run is_revoked_by
run-Counts true s [] h = h
run-Counts false s [] h = h
run-Counts b s (a ∷ rest) h =
    subst (λ x. Counts x (run (step s a) rest)) (set_by-rest b a rest)
      (run-Counts (set_by b a) (step s a) rest (step-Counts b s a h))

-- After any steps of any threads on a new grant, the word counts exactly the operations that have
-- not ended, their number never carries into the revocation bit, and the bit is set exactly if some
-- step was a revocation.
pub run-active :
    (actions : List Action)
    → (active (run fresh actions).state ≡ (run fresh actions).operations)
      × ((run fresh actions).operations ≤ active_count)
      × (is_cut_off (run fresh actions).state ≡ is_revoked_by actions)
unfolding word
run-active actions =
    let b = is_revoked_by actions in
    let s = run fresh actions in
    let (e, h) = run-Counts false fresh actions (refl, omega arith) in
    (
      rw (e) (word-active b s.operations (omega arith)),
      h,
      rw (e) (word-is_cut_off b s.operations (omega arith)),
    )

-- A revoked word admits nothing, whatever a deferred entry has loaded before.
count-revoked : (s : Shared) → Counts true s → count s.state ≡ (s.state, err TopicError.revoked)
unfolding count refusal
count-revoked s h = grind (arith, advance-cut s.operations, word-is_cut_off true s.operations)

deferred-revoked :
    (loaded : ℕ) (s : Shared) → Counts true s → counted s (count_deferred loaded s.state) ≡ s
unfolding count_deferred counted
deferred-revoked loaded s h = grind (arith, advance-cut s.operations)

-- No step on a revoked grant adds an operation.
step-falls : (s : Shared) (a : Action) → Counts true s → (step s a).operations ≤ s.operations
unfolding step counted
step-falls s Action.enters h = grind (arith, count-revoked s h)
step-falls s (Action.enters_deferred loaded) h = grind (arith, deferred-revoked loaded s h)
step-falls s (Action.ends notify) h = grind arith
step-falls s Action.revokes h = omega arith

set_by-true : (a : Action) → set_by true a ≡ true
unfolding set_by
set_by-true Action.revokes = refl
set_by-true Action.enters = refl
set_by-true (Action.enters_deferred loaded) = refl
set_by-true (Action.ends notify) = refl

run-falls :
    (s : Shared) (actions : List Action) → Counts true s → (run s actions).operations ≤ s.operations
unfolding run
run-falls s [] h = omega arith
run-falls s (a ∷ rest) h = omega (
  arith,
  step-falls s a h,
  run-falls (step s a) rest
      (subst (λ b. Counts b (step s a)) (set_by-true a) (step-Counts true s a h)),
)

-- Revocation is a cutoff: after it, whatever any threads do, an entry is answered as revoked and a
-- deferred entry, whatever word it had loaded, is not counted; the operations and
-- the count that the revocation waits on only fall.
pub revoked-cutoff :
    (before after : List Action) (loaded : ℕ)
    → let cut = step (run fresh before) Action.revokes in
      let s = run cut after in
      (count s.state ≡ (s.state, err TopicError.revoked))
      × (counted s (count_deferred loaded s.state) ≡ s)
      × (s.operations ≤ cut.operations)
      × (active s.state ≤ active cut.state)
unfolding word step set_by
revoked-cutoff before after loaded =
    let at = run-Counts false fresh before (refl, omega arith) in
    let cut = step (run fresh before) Action.revokes in
    let now = step-Counts (is_revoked_by before) (run fresh before) Action.revokes at in
    let later = run-Counts true cut after now in
    let falls = run-falls cut after now in
    (
      count-revoked (run cut after) later,
      deferred-revoked loaded (run cut after) later,
      falls,
      grind (arith, word-active true cut.operations, word-active true (run cut after).operations),
    )

-- What the last `fetch_sub` of a revoked grant reads.
word-wakes :
    (b : Bool) (n : ℕ) → n < 2 ^ 63 → ((leave true (word b n)).1 ≡ true) ↔ ((b ≡ true) × (n ≡ 1))
unfolding leave word
word-wakes true n h = grind arith
word-wakes false n h = grind arith

last-wakes :
    (b : Bool) (s : Shared)
    → Counts b s
    → ((leave true s.state).1 ≡ true) ↔ ((b ≡ true) × (s.operations ≡ 1))
last-wakes b s h =
    subst (λ w. ((leave true w).1 ≡ true) ↔ ((b ≡ true) × (s.operations ≡ 1))) (sym h.0)
      (word-wakes b s.operations (omega arith))

ends-drained :
    (b : Bool) (s : Shared)
    → Counts b s
    → 0 < s.operations
    → (is_drained (step s (Action.ends true)).state ≡ true) ↔ (s.operations ≡ 1)
unfolding is_drained step
ends-drained b s h p =
    grind (arith, word-leave b true s.operations, word-active b (s.operations - 1) (omega arith))

-- An operation that ends and notifies wakes the revocation exactly when the grant is revoked and the
-- operation was the last one, so that the cutoff is then complete.
pub leave-wakes :
    (before : List Action)
    → 0 < (run fresh before).operations
    → ((leave true (run fresh before).state).1 ≡ true) ↔ (
        (is_revoked_by before ≡ true)
        × (is_drained (step (run fresh before) (Action.ends true)).state ≡ true))
unfolding word
leave-wakes before h =
    let b = is_revoked_by before in
    let s = run fresh before in
    let at = run-Counts false fresh before (refl, omega arith) in
    let wakes = last-wakes b s at in
    let drained = ends-drained b s at h in
    ((λ e. ((wakes.0 e).0, drained.1 (wakes.0 e).1)), (λ e. wakes.1 (e.0, drained.0 e.1)))
