-- ===== src/Grant/Charge/Exact.antt =====
-- A charge takes everything it asks for or nothing, and a release gives it back.
use mathlib.Core.Path.{subst, sym}
use hiway.Prelude.{
  ℕ, suc, ◌+◌, ◌^◌, ◌<◌, ◌≤◌, ◌≡◌, refl, ◌∙◌, inl, inr, Bool, true, false, ◌&&◌, Option, none, some,
  List, [], ◌∷◌, leb, if◌then◌else◌, take, Result, ok, err, arith, Bool-cases, ap,
}
use hiway.Errors.{TopicError}
use hiway.Grant.{Limits, values}
use hiway.Grant.Charge.{
  Pool, raise, lower, raised, raise_from, lower_all, settle, charge_pool, release,
}

-- Every counter is within its limit, and every limit is that of an addressable allocation.
abbrev pub Within : List ℕ → List ℕ → Type 0
Within [] [] = Unit
Within (limit ∷ limits) (current ∷ usage) =
    (current ≤ limit) × (limit < 2 ^ 63) × Within limits usage
Within _ _ = 1 ≤ 0

-- Every counter has room for its amount.
unfoldable pub fits : List ℕ → List ℕ → List ℕ → Bool
fits (amount ∷ requested) (limit ∷ limits) (current ∷ usage) =
    leb (current + amount) limit && fits requested limits usage
fits _ _ _ = true

unfoldable pub add : List ℕ → List ℕ → List ℕ
add (amount ∷ requested) (current ∷ usage) = (current + amount) ∷ add requested usage
add _ usage = usage

raise-room :
    (limit amount current : ℕ)
    → current ≤ limit
    → limit < 2 ^ 63
    → raise limit amount current
      ≡ (if leb (current + amount) limit then some (current + amount) else none)
unfolding raise
raise-room limit amount current h k = grind arith

lower-add :
    (amount current : ℕ) → current + amount < 2 ^ 63 → lower amount (current + amount) ≡ current
unfolding lower
lower-add amount current h = grind arith

-- The loop goes on exactly at a counter that has room.
raise_from-room :
    (index r l u : ℕ) (rs ls us : List ℕ)
    → u + r ≤ l
    → l < 2 ^ 63
    → raise_from index (r ∷ rs) (l ∷ ls) (u ∷ us)
      ≡ ((u + r) ∷ (raise_from (index + 1) rs ls us).0, (raise_from (index + 1) rs ls us).1)
unfolding raise_from raised
raise_from-room index r l u rs ls us h k = grind (arith, raise-room l r u)

raise_from-full :
    (index r l u : ℕ) (rs ls us : List ℕ)
    → u ≤ l
    → l < 2 ^ 63
    → l < u + r
    → raise_from index (r ∷ rs) (l ∷ ls) (u ∷ us) ≡ (u ∷ us, some index)
unfolding raise_from raised
raise_from-full index r l u rs ls us h k full = grind (arith, raise-room l r u)

raise_from-fits :
    (index : ℕ) (requested limits usage : List ℕ)
    → Within limits usage
    → fits requested limits usage ≡ true
    → raise_from index requested limits usage ≡ (add requested usage, none)
unfolding raise_from fits add raised
raise_from-fits index [] [] [] h e = refl
raise_from-fits index [] (l ∷ ls) (u ∷ us) h e = refl
raise_from-fits index (r ∷ rs) [] [] h e = refl
raise_from-fits index rs [] (u ∷ us) h e = absurd (omega arith)
raise_from-fits index rs (l ∷ ls) [] h e = absurd (omega arith)
raise_from-fits index (r ∷ rs) (l ∷ ls) (u ∷ us) h e =
    rw (raise_from-room index r l u rs ls us (ground arith) h.1)
      (grind (arith, raise_from-fits (index + 1) rs ls us))

lower_all-add :
    (requested limits usage : List ℕ)
    → Within limits usage
    → fits requested limits usage ≡ true
    → lower_all requested (add requested usage) ≡ usage
unfolding lower_all fits add
lower_all-add [] ls us h e = refl
lower_all-add (r ∷ rs) [] [] h e = refl
lower_all-add rs [] (u ∷ us) h e = absurd (omega arith)
lower_all-add rs (l ∷ ls) [] h e = absurd (omega arith)
lower_all-add (r ∷ rs) (l ∷ ls) (u ∷ us) h e = grind (arith, lower-add r u, lower_all-add rs ls us)

add-Within :
    (requested limits usage : List ℕ)
    → Within limits usage
    → fits requested limits usage ≡ true
    → Within limits (add requested usage)
unfolding fits add
add-Within [] ls us h e = h
add-Within (r ∷ rs) [] [] h e = h
add-Within rs [] (u ∷ us) h e = absurd (omega arith)
add-Within rs (l ∷ ls) [] h e = absurd (omega arith)
add-Within (r ∷ rs) (l ∷ ls) (u ∷ us) h e =
    (ground arith, h.1, add-Within rs ls us h.2 (ground arith))

-- A loop that fails somewhere is undone by lowering the counters before.
abbrev Undone : ℕ → List ℕ → List ℕ → List ℕ × Option ℕ → Type 0
Undone index requested usage r =
    (count : ℕ) × (r.1 ≡ some (index + count)) × (lower_all (take count requested) r.0 ≡ usage)

Undone-suc :
    (index r u : ℕ) (rs us : List ℕ) (rest : List ℕ × Option ℕ)
    → u + r < 2 ^ 63
    → Undone (index + 1) rs us rest
    → Undone index (r ∷ rs) (u ∷ us) ((u + r) ∷ rest.0, rest.1)
unfolding lower_all
Undone-suc index r u rs us rest h (count, e, undone) =
    (suc count, grind arith, grind (arith, lower-add r u))

raise_from-fails :
    (index : ℕ) (requested limits usage : List ℕ)
    → Within limits usage
    → fits requested limits usage ≡ false
    → Undone index requested usage (raise_from index requested limits usage)
unfolding raise_from fits raised lower_all
raise_from-fails index [] [] [] h e = absurd (grind arith)
raise_from-fails index [] (l ∷ ls) (u ∷ us) h e = absurd (grind arith)
raise_from-fails index (r ∷ rs) [] [] h e = absurd (grind arith)
raise_from-fails index rs [] (u ∷ us) h e = absurd (omega arith)
raise_from-fails index rs (l ∷ ls) [] h e = absurd (omega arith)
raise_from-fails index (r ∷ rs) (l ∷ ls) (u ∷ us) h e = elim (Bool-cases (leb (u + r) l)) [
  | inr full ↦
      subst (Undone index (r ∷ rs) (u ∷ us))
        (sym (raise_from-full index r l u rs ls us h.0 h.1 (ground arith))) (0, grind arith, refl)
  | inl room ↦
      subst (Undone index (r ∷ rs) (u ∷ us))
        (sym (raise_from-room index r l u rs ls us (ground arith) h.1))
        (Undone-suc index r u rs us (raise_from (index + 1) rs ls us) (ground arith)
          (raise_from-fails (index + 1) rs ls us h.2 (ground arith)))
]

-- What `charge` and the drop of its lease do to the pool at once.
abbrev pub atomic_charge : Pool → Limits → Pool × Result (Unit {0}) TopicError
atomic_charge pool amounts =
    if fits (values amounts) (values pool.limits) pool.usage
    then (record pool { usage = add (values amounts) pool.usage }, ok tt)
    else (pool, err TopicError.capacity)

settle-fails :
    (requested usage : List ℕ) (r : List ℕ × Option ℕ)
    → Undone 0 requested usage r
    → settle requested r ≡ (usage, err TopicError.capacity)
unfolding settle
settle-fails requested usage (after, none) (count, e, undone) = absurd (grind arith)
settle-fails requested usage (after, some index) (count, e, undone) = grind arith

-- If every counter of a pool is within a limit that is addressable, the loop over the counters with
-- its roll-back is one indivisible test: a charge takes every amount if each counter has room for
-- its own, and otherwise leaves the pool as it was and reports the capacity.
pub charge_pool-atomic :
    (pool : Pool) (amounts : Limits)
    → Within (values pool.limits) pool.usage
    → charge_pool pool amounts ≡ atomic_charge pool amounts
unfolding charge_pool settle
charge_pool-atomic pool amounts h =
    elim (Bool-cases (fits (values amounts) (values pool.limits) pool.usage)) [
      | inl room ↦
          rw (room, raise_from-fits 0 (values amounts) (values pool.limits) pool.usage h room) refl
      | inr full ↦
          rw
            (
              full,
              settle-fails (values amounts) pool.usage
                  (raise_from 0 (values amounts) (values pool.limits) pool.usage)
                  (raise_from-fails 0 (values amounts) (values pool.limits) pool.usage h full),
            )
            refl
    ]

-- Only a charge that has room is granted.
granted :
    (room : Bool) (full taken charged : Pool) (refused : TopicError)
    → ◌≡◌ {A = Pool × Result (Unit {0}) TopicError}
        (if room then (taken, ok tt) else (full, err refused))
        (charged, ok tt)
    → (room ≡ true) × (taken ≡ charged)
granted true full taken charged refused e = (refl, ap (λ r. r.0) e)
granted false full taken charged refused e = absurd (grind arith)

abbrev Returns : Pool → Limits → Pool → Type 0
Returns pool amounts charged =
    Within (values charged.limits) charged.usage × (release charged amounts ≡ pool)

-- A lease that a pool within its limits has granted leaves it within its limits, and dropping the
-- lease gives back exactly the pool before.
pub release-charge_pool :
    (pool charged : Pool) (amounts : Limits)
    → Within (values pool.limits) pool.usage
    → charge_pool pool amounts ≡ (charged, ok tt)
    → Within (values charged.limits) charged.usage × (release charged amounts ≡ pool)
unfolding release
release-charge_pool pool charged amounts h e =
    let requested = values amounts in
    let limits = values pool.limits in
    let taken = record pool { usage = add requested pool.usage } in
    let (room, at) =
      granted (fits requested limits pool.usage) pool taken charged TopicError.capacity
        (sym (charge_pool-atomic pool amounts h) ∙ e) in
    subst (Returns pool amounts) at (
      add-Within requested limits pool.usage h room,
      ap (λ usage. record pool { usage = usage })
          (lower_all-add requested limits pool.usage h room),
    )
