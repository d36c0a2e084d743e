-- ===== src/Transport/Records/Refine.antt =====
-- `Records` holds the newest entries of its history, in order, and counts the rest.
use hiway.Prelude.{
  ℕ, ◌+◌, ◌-◌, ◌%◌, ◌≤◌, ◌<◌, ◌≡◌, ◌≢◌, refl, sym, ap, ◌∙◌, none, some, List, [], ◌∷◌, ◌++◌, arith,
  length, get_elem?, set, drop, length-append, length-set, length-replicate, get_elem?-set_self,
  get_elem?-set_ne, get_elem?-append_left, get_elem?-append_last, get_elem?-drop_one,
  length-drop_one, saturating_add,
}
use hiway.Prelude.Modulo.{mod-ne}
use hiway.Transport.Records.{Records, new, push, pop, add_lost, taken}
use hiway.Transport.Records.Queue
use hiway.Transport.Records.Queue.{Queue}
use native.Mathlib.Nat.{add-zero, mod-lt, mod-add-mod, mod-eq_of_lt, add-mod_right}
use native.Mathlib.Decide.{ℕ_discrete}

-- The ring holds the queue: entry `i` stands `i` slots behind the head.
pub record IsHolding {T : Type 0} (cap : ℕ) (r : Records T) (q : Queue T) : Type 0 where
  pub slots : length r.entries ≡ cap
  pub counted : r.len ≡ length q.held
  pub bounded : r.len ≤ cap
  pub head_in : 0 < cap → r.head < cap
  pub placed :
      (i : ℕ) → i < r.len → get_elem? r.entries ((r.head + i) % cap) ≡ some (get_elem? q.held i)
  pub lost : r.lost ≡ q.lost

-- The step of the head, in front of an offset.
head-step : (cap head i : ℕ) → ((head + 1) % cap + i) % cap ≡ (head + (i + 1)) % cap
head-step cap head i = mod-add-mod (head + 1) cap i ∙ ap (λ k. k % cap) (omega arith)

module _ {T : Type 0} (cap : ℕ) where
  pub new-IsHolding : IsHolding cap (new {T = T} cap) (record { held = []; lost = 0 })
  unfolding new
  new-IsHolding = record {
    slots = length-replicate cap none;
    counted = refl;
    bounded = omega arith;
    head_in = λ h. h;
    placed = λ i h. absurd (omega arith);
    lost = refl;
  }

  push-append :
      (r : Records T) (q : Queue T) (entry : T) (i : ℕ)
      → IsHolding cap r q
      → r.len < cap
      → i < r.len + 1
      → get_elem? (set r.entries ((r.head + r.len) % cap) (some entry)) ((r.head + i) % cap)
        ≡ some (get_elem? (q.held ++ entry ∷ []) i)
  push-append r q entry i v room lt = elim (ℕ_discrete i r.len) [
    | yes e ↦
        rw (e, get_elem?-set_self r.entries ((r.head + r.len) % cap) (some entry) bound, v.counted)
          (ap some (sym (get_elem?-append_last q.held entry)))
    | no ne ↦ rw (
      get_elem?-set_ne r.entries ((r.head + r.len) % cap) ((r.head + i) % cap) (some entry)
          (λ e. mod-ne cap (r.head + i) (r.head + r.len) (omega arith) (omega arith) (sym e)),
      v.placed i (omega arith),
      get_elem?-append_left q.held (entry ∷ []) i (omega (arith, v.counted)),
    )
  ]
    where
      bound : (r.head + r.len) % cap < length r.entries
      bound = omega (arith, v.slots, mod-lt (r.head + r.len) {m = cap} (omega arith))

  push-replace :
      (r : Records T) (q : Queue T) (entry : T) (i : ℕ)
      → IsHolding cap r q
      → r.len ≡ cap
      → i < r.len
      → get_elem? (set r.entries r.head (some entry)) (((r.head + 1) % cap + i) % cap)
        ≡ some (get_elem? (drop 1 (q.held ++ entry ∷ [])) i)
  push-replace r q entry i v full lt =
      rw (head-step cap r.head i, get_elem?-drop_one (q.held ++ entry ∷ []) i)
        (elim (ℕ_discrete (i + 1) cap) [
          | yes e ↦
              let back : (r.head + (i + 1)) % cap ≡ r.head =
                rw (e, add-mod_right) (mod-eq_of_lt here) in
              let last : i + 1 ≡ length q.held = omega (arith, v.counted) in
              rw
                (
                  back,
                  get_elem?-set_self r.entries r.head (some entry) (omega (arith, v.slots)),
                  last,
                )
                (ap some (sym (get_elem?-append_last q.held entry)))
          | no ne ↦ rw (
            get_elem?-set_ne r.entries r.head ((r.head + (i + 1)) % cap) (some entry) (λ e.
                mod-ne cap r.head (r.head + (i + 1)) (omega arith) (omega arith)
                  (mod-eq_of_lt here ∙ e)),
            v.placed (i + 1) (omega arith),
            get_elem?-append_left q.held (entry ∷ []) (i + 1) (omega (arith, v.counted)),
          )
        ])
    where
      here : r.head < cap
      here = v.head_in (omega arith)

  pop-rest :
      (r : Records T) (q : Queue T) (i : ℕ)
      → IsHolding cap r q
      → i + 1 < r.len
      → get_elem? (set r.entries r.head none) (((r.head + 1) % cap + i) % cap)
        ≡ some (get_elem? (drop 1 q.held) i)
  pop-rest r q i v lt = rw (
    head-step cap r.head i,
    get_elem?-drop_one q.held i,
    get_elem?-set_ne r.entries r.head ((r.head + (i + 1)) % cap) none (λ e.
        mod-ne cap r.head (r.head + (i + 1)) (omega arith) (omega (arith, v.bounded))
          (mod-eq_of_lt (v.head_in (omega (arith, v.bounded))) ∙ e)),
    v.placed (i + 1) (omega arith),
  )

  push_zero : (r : Records T) (entry : T) → cap ≡ 0 → push cap r entry ≡ add_lost r 1
  unfolding push
  push_zero r entry e = ground arith

  push_full :
      (r : Records T) (entry : T)
      → cap ≢ 0
      → r.len ≡ cap
      → push cap r entry
        ≡ add_lost
            (record r { entries = set r.entries r.head (some entry); head = (r.head + 1) % cap })
            1
  unfolding push
  push_full r entry ne e = ground arith

  push_room :
      (r : Records T) (entry : T)
      → r.len ≢ cap
      → cap ≢ 0
      → push cap r entry ≡ record r {
        entries = set r.entries ((r.head + r.len) % cap) (some entry);
        len = r.len + 1;
      }
  unfolding push
  push_room r entry ne nz = ground arith

  queue_full :
      (q : Queue T) (entry : T)
      → length q.held ≡ cap
      → Queue.push cap q entry
        ≡ record { held = drop 1 (q.held ++ entry ∷ []); lost = saturating_add q.lost 1 }
  unfolding Queue.push
  queue_full q entry e = ground arith

  queue_room :
      (q : Queue T) (entry : T)
      → length q.held ≢ cap
      → Queue.push cap q entry ≡ record q { held = q.held ++ entry ∷ [] }
  unfolding Queue.push
  queue_room q entry ne = ground arith

  -- `push` appends to the history, and on a full or empty ring drops the oldest entry and counts it.
  pub push-IsHolding :
      (r : Records T) (q : Queue T) (entry : T)
      → IsHolding cap r q
      → IsHolding cap (push cap r entry) (Queue.push cap q entry)
  push-IsHolding r q entry v = elim (ℕ_discrete cap 0) [
    | yes z ↦
        rw (push_zero r entry z, queue_full q entry (omega (arith, v.counted, v.bounded)))
          (record {
            slots = v.slots;
            counted = omega (
              arith,
              v.counted,
              v.bounded,
              length-drop_one (q.held ++ entry ∷ []),
              length-append q.held (entry ∷ []),
            );
            bounded = v.bounded;
            head_in = v.head_in;
            placed = λ i lt. absurd (omega (arith, v.bounded));
            lost = ap (λ n. saturating_add n 1) v.lost;
          })
    | no nz ↦ elim (ℕ_discrete r.len cap) [
      | yes full ↦
          rw (push_full r entry nz full, queue_full q entry (omega (arith, v.counted)))
            (record {
              slots = omega (arith, v.slots, length-set r.entries r.head (some entry));
              counted = omega (
                arith,
                v.counted,
                length-drop_one (q.held ++ entry ∷ []),
                length-append q.held (entry ∷ []),
              );
              bounded = v.bounded;
              head_in = λ h. mod-lt (r.head + 1) h;
              placed = λ i lt. push-replace r q entry i v full lt;
              lost = ap (λ n. saturating_add n 1) v.lost;
            })
      | no room ↦
          rw (push_room r entry room nz, queue_room q entry (λ e. room (omega (arith, v.counted))))
            (record {
              slots =
                  omega
                    (arith, v.slots, length-set r.entries ((r.head + r.len) % cap) (some entry));
              counted = omega (arith, v.counted, length-append q.held (entry ∷ []));
              bounded = omega (arith, v.bounded);
              head_in = v.head_in;
              placed = λ i lt. push-append r q entry i v (omega (arith, v.bounded)) lt;
              lost = v.lost;
            })
    ]
  ]

  pop_empty : (r : Records T) → r.len ≡ 0 → pop cap r ≡ (r, none)
  unfolding pop
  pop_empty r e = ground arith

  pop_some :
      (r : Records T)
      → r.len ≢ 0
      → pop cap r ≡ (
        record r {
          entries = set r.entries r.head none;
          head = (r.head + 1) % cap;
          len = r.len - 1;
        },
        taken (get_elem? r.entries r.head),
      )
  unfolding pop
  pop_some r ne = ground arith

  -- `pop` takes the oldest entry of the history.
  pub pop-IsHolding :
      (r : Records T) (held : List T) (lost : ℕ)
      → IsHolding cap r (record { held = held; lost = lost })
      → let (q', entry) = Queue.pop (record { held = held; lost = lost }) in
        IsHolding cap (pop cap r).0 q' × ((pop cap r).1 ≡ entry)
  unfolding Queue.pop
  pop-IsHolding r [] lost v = rw (pop_empty r v.counted) (v, refl)
  pop-IsHolding r (entry ∷ rest) lost v = rw (pop_some r (omega (arith, v.counted))) (
    record {
      slots = omega (arith, v.slots, length-set r.entries r.head none);
      counted = omega (arith, v.counted);
      bounded = omega (arith, v.bounded);
      head_in = λ h. mod-lt (r.head + 1) h;
      placed = λ i lt. pop-rest r (record { held = entry ∷ rest; lost = lost }) i v (omega arith);
      lost = v.lost;
    },
    oldest,
  )
    where
      here : r.head ≡ (r.head + 0) % cap
      here = rw add-zero (sym (mod-eq_of_lt (v.head_in (omega (arith, v.counted, v.bounded)))))

      oldest : taken (get_elem? r.entries r.head) ≡ some entry
      oldest = ap taken (ap (get_elem? r.entries) here ∙ v.placed 0 (omega (arith, v.counted)))
