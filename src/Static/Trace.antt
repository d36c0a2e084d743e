-- ===== src/Static/Trace.antt =====
-- Over any sequence of calls a subscription is served in order from where it stands.
use hiway.Prelude.{
  ℕ, zero, suc, ◌+◌, ◌<◌, ◌≡◌, ◌≢◌, ◌⊎◌, refl, ◌∙◌, none, some, List, [], ◌∷◌, ◌++◌, arith, Option,
  Option-cases, Bool-cases, inl, inr, get_elem?, set, false, get_elem?-set_self, get_elem?-set_ne,
  get_elem?-eq_some, ok, Result, ◌==◌, ◌&&◌,
}
use hiway.Event.{Delivery}
use hiway.Errors.{ReceiveError}
use hiway.Static.{
  SubscriberKey, Cursor, State, StreamItem, find_cursor, free_slot, recv_now, close, detach,
  coalesce,
}
use hiway.Static.Cases.{
  send_now_cases, subscribe_cases, recv_now_cases, recv_at_cases, detach_cases,
}
use hiway.Static.Invariant.{IsValid, find_cursor-IsPlaced}
use hiway.Static.Stale.{find_cursor-generation, find_cursor-slot, find_cursor-detached}
use hiway.Static.Log.{start, read, position}
use hiway.Static.Receive.{recv_now-read}
use hiway.Static.Delivered.{IsFaithful, IsWithin, read-none, read-some}
use hiway.Static.Calls.{
  Call, subscribes, sends, receives, closes, detaches, kept, step, items, handed,
}

find_cursor-set_keep :
    (cursors : List (Option Cursor)) (key : SubscriberKey) (index : ℕ) (o : Option Cursor)
    → index ≢ key.index
    → find_cursor (set cursors index o) key ≡ find_cursor cursors key
unfolding find_cursor
find_cursor-set_keep cursors key index o ne =
    rw (find_cursor, get_elem?-set_ne cursors index key.index o ne)

free_slot-none :
    (cursors : List (Option Cursor)) (index : ℕ)
    → free_slot cursors ≡ some index
    → get_elem? cursors index ≡ some none
unfolding free_slot
free_slot-none [] index e = cc
free_slot-none (none ∷ cs) zero e = refl
free_slot-none (none ∷ cs) (suc index) e = cc
free_slot-none (some c ∷ cs) zero e = ground arith
free_slot-none (some c ∷ cs) (suc index) e = free_slot-none cs index (ground arith)

-- Two keys that one cursor answers to are one.
same_cursor :
    (cursors : List (Option Cursor)) (a b : SubscriberKey) (c d : Cursor)
    → find_cursor cursors a ≡ some c
    → find_cursor cursors b ≡ some d
    → (b.index == a.index && b.generation == a.generation) ≡ false
    → b.index ≢ a.index
unfolding find_cursor
same_cursor cursors a b c d ha hb ne e =
    let at : get_elem? cursors b.index ≡ some (some c) = rw e (find_cursor-slot cursors a c ha) in
    ground (
      arith,
      find_cursor-slot cursors b d hb,
      find_cursor-generation cursors a c ha,
      find_cursor-generation cursors b d hb,
    )

module _ {T : Type 0} (key : SubscriberKey) (final : List T) (d : Delivery) where
  -- After a call that handed over `out`, the subscription goes on behind it, or has ended.
  abbrev pub IsServedIn : ℕ → List (StreamItem T) → List (Option Cursor) → ℕ → Type 0
  IsServedIn next out cursors issued =
      ((c : Cursor) × (find_cursor cursors key ≡ some c)
        × ((rest : List (StreamItem T))
            → IsFaithful d final c.next rest
            → IsFaithful d final next (out ++ rest)))
      ⊎ ((find_cursor cursors key ≡ none) × (key.generation < issued) × (out ≡ []))

  abbrev pub IsServed : ℕ → List (StreamItem T) → State T → Type 0
  IsServed next out s = IsServedIn next out s.cursors s.next_generation

  IsServed-keep :
      (cursors : List (Option Cursor)) (issued : ℕ) (c : Cursor)
      → find_cursor cursors key ≡ some c
      → IsServedIn c.next [] cursors issued
  IsServed-keep cursors issued c found = inl (c, found, λ _ f. f)

  IsServed-set :
      (cursors : List (Option Cursor)) (issued : ℕ) (c : Cursor) (index : ℕ) (o : Option Cursor)
      → find_cursor cursors key ≡ some c
      → index ≢ key.index
      → IsServedIn c.next [] (set cursors index o) issued
  IsServed-set cursors issued c index o found ne =
      inl (c, find_cursor-set_keep cursors key index o ne ∙ found, λ _ f. f)

  IsServed-other :
      (cap : ℕ) (s : State T) (c : Cursor) (by : SubscriberKey)
      → find_cursor s.cursors key ≡ some c
      → (by.index == key.index && by.generation == key.generation) ≡ false
      → IsServed c.next [] (recv_now cap s by).1
  IsServed-other cap s c by found ne =
      recv_now_cases (λ out. IsServed c.next [] out.1) cap s by
        (λ _ _. IsServed-keep s.cursors s.next_generation c found)
        (λ _. IsServed-keep s.cursors s.next_generation c found)
        λ b _ other.
          let apart = same_cursor s.cursors key by c b found other ne in
          recv_at_cases (λ out. IsServed c.next [] out.1) cap s by.index (coalesce s b)
            (λ _. IsServed-set s.cursors s.next_generation c by.index _ found apart)
            (λ _. IsServed-set s.cursors s.next_generation c by.index _ found apart)
            (λ _ _ _ _. IsServed-set s.cursors s.next_generation c by.index _ found apart)
            (λ _ _ _. IsServed-keep s.cursors s.next_generation c found)

  IsServed-read :
      (cap : ℕ) (history : List T) (s s' : State T) (c : Cursor)
      (r : Result (Option (StreamItem T)) ReceiveError)
      → IsWithin history final
      → find_cursor s'.cursors key
        ≡ some (record c { next = position cap history (start d history c.next) })
      → r ≡ ok (read cap history (start d history c.next))
      → IsServed c.next (items r) s'
  IsServed-read cap history s s' c r within found e =
      elim (Option-cases (read cap history (start d history c.next))) [
        | inl nothing ↦
            rw (e, nothing)
              (inl (_, found, λ rest f. read-none cap d history final c.next rest nothing f))
        | inr (i, there) ↦
            rw (e, there)
              (inl (_, found, λ rest f. read-some cap d history final c.next i rest within there f))
      ]

module _ {T : Type 0} (key : SubscriberKey) (final : List T) where
  answers :
      (s : State T) (c b : Cursor)
      → find_cursor s.cursors key ≡ some c
      → b.generation ≡ c.generation
      → find_cursor (set s.cursors key.index (some b)) key ≡ some b
  unfolding find_cursor
  answers s c b found e =
      let at = find_cursor-slot s.cursors key c found in
      let own = find_cursor-generation s.cursors key c found in
      ground (
        arith,
        get_elem?-set_self s.cursors key.index (some b)
            (get_elem?-eq_some s.cursors key.index (some c) at),
      )

  IsServed-receive :
      (cap : ℕ) (history : List T) (s : State T) (c : Cursor)
      → IsValid cap history s
      → IsWithin history final
      → find_cursor s.cursors key ≡ some c
      → IsServed key final s.delivery c.next (items (recv_now cap s key).0) (recv_now cap s key).1
  IsServed-receive cap history s c v within found = elim (Option-cases s.closed) [
    | inr (reason, e) ↦
        recv_now_cases (λ out. IsServed key final s.delivery c.next (items out.0) out.1) cap s key
          (λ _ _. IsServed-keep key final s.delivery s.cursors s.next_generation c found)
          (λ _. IsServed-keep key final s.delivery s.cursors s.next_generation c found)
          λ _ o _. absurd (cc)
    | inl open_ ↦
        let (result, moved) = recv_now-read cap history s key c v open_ found in
        IsServed-read key final s.delivery cap history s (recv_now cap s key).1 c
          (recv_now cap s key).0 within (rw moved (answers s c _ found refl)) result
  ]

  IsServed-detach :
      (s : State T) (c : Cursor) (by : SubscriberKey)
      → key.generation < s.next_generation
      → find_cursor s.cursors key ≡ some c
      → IsServed key final s.delivery c.next [] (kept s (detach s by))
  IsServed-detach s c by issued found =
      detach_cases (λ out. IsServed key final s.delivery c.next [] (kept s out)) s by
        (λ _ _. IsServed-keep key final s.delivery s.cursors s.next_generation c found)
        (λ _. IsServed-keep key final s.delivery s.cursors s.next_generation c found)
        λ b other. elim (Bool-cases (by.index == key.index && by.generation == key.generation)) [
          | inl same ↦
              let here : by.index ≡ key.index = ground arith in
              inr (rw here (find_cursor-detached s.cursors key), issued, refl)
          | inr ne ↦
              IsServed-set key final s.delivery s.cursors s.next_generation c by.index none found
                (same_cursor s.cursors key by c b found other ne)
        ]

  -- Every call serves the subscription in order, or ends it.
  pub step-IsServed :
      (cap : ℕ) (history : List T) (s : State T) (c : Cursor) (call : Call T)
      → IsValid cap history s
      → IsWithin history final
      → find_cursor s.cursors key ≡ some c
      → IsServed key final s.delivery c.next (handed cap s key call) (step cap s call)
  unfolding step handed close
  step-IsServed cap history s c (subscribes role) v within found =
      subscribe_cases (λ out. IsServed key final s.delivery c.next [] out.1) s role
        (λ _. IsServed-keep key final s.delivery s.cursors s.next_generation c found)
        λ index _ free _ _.
          IsServed-set key final s.delivery s.cursors (s.next_generation + 1) c index _ found
            (apart index free (find_cursor-slot s.cursors key c found))
    where
      apart :
          (index : ℕ)
          → free_slot s.cursors ≡ some index
          → get_elem? s.cursors key.index ≡ some (some c)
          → index ≢ key.index
      apart index free at e = ground (arith, free_slot-none s.cursors index free)
  step-IsServed cap history s c (sends value) v within found =
      send_now_cases (λ out. IsServed key final s.delivery c.next [] out.1) cap s value
        (λ _ _. IsServed-keep key final s.delivery s.cursors s.next_generation c found)
        (λ _. IsServed-keep key final s.delivery s.cursors s.next_generation c found)
        (λ _. IsServed-keep key final s.delivery s.cursors s.next_generation c found)
        (λ _ _ _. IsServed-keep key final s.delivery s.cursors s.next_generation c found)
  step-IsServed cap history s c (receives by) v within found =
      elim (Bool-cases (by.index == key.index && by.generation == key.generation)) [
        | inl same ↦
            let key_eq : by ≡ key = ground arith in
            rw same (rw key_eq (IsServed-receive cap history s c v within found))
        | inr ne ↦ rw ne (IsServed-other key final s.delivery cap s c by found ne)
      ]
  step-IsServed cap history s c (closes reason) v within found =
      IsServed-keep key final s.delivery s.cursors s.next_generation c found
  step-IsServed cap history s c (detaches by) v within found =
      let (placed, at, own) = find_cursor-IsPlaced cap history s key c v found in
      IsServed-detach s c by (omega (arith, placed.2)) found
