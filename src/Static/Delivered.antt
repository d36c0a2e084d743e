-- ===== src/Static/Delivered.antt =====
-- What one subscription is handed over any sequence of calls.
use hiway.Prelude.{
  ℕ, ◌+◌, ◌<◌, ◌≤◌, ◌≡◌, refl, ◌∙◌, none, some, List, [], ◌∷◌, arith, get_elem?, get_elem?-eq_some,
  ok, err, panic, Result, get_elem?-append_left,
}
use hiway.Event.{Delivery, ordered, latest}
use hiway.Errors.{TrySendError}
use hiway.Static.{State, StreamItem, item, gap, send_now}
use hiway.Static.Invariant.{admitted}
use hiway.Static.Log.{start, read, position}
use hiway.Static.Calls.{
  Call, subscribes, sends, receives, closes, detaches, step, extend, published,
}

-- Where an ordered, or a latest-state, subscriber at `next` may be served from.
abbrev pub IsSequel : Delivery → ℕ → ℕ → Type 0
IsSequel ordered next from = from ≡ next
IsSequel latest next from = next ≤ from

-- Items that follow one another from `next` on and agree with the history.
abbrev pub IsFaithful : {T : Type 0} → Delivery → List T → ℕ → List (StreamItem T) → Type 0
IsFaithful d history next [] = Unit {0}
IsFaithful d history next (item sequence value ∷ rest) =
    IsSequel d next sequence
    × (get_elem? history sequence ≡ some value)
    × IsFaithful d history (sequence + 1) rest
IsFaithful d history next (gap from to ∷ rest) =
    IsSequel d next from × (from < to) × IsFaithful d history to rest

module _ {T : Type 0} where
  -- All that one history holds, another holds.
  abbrev pub IsWithin : List T → List T → Type 0
  IsWithin history final =
      (i : ℕ) (v : T) → get_elem? history i ≡ some v → get_elem? final i ≡ some v

  -- Nothing is handed over: a latest-state subscriber may have moved on.
  pub read-none :
      (cap : ℕ) (d : Delivery) (history final : List T) (next : ℕ) (rest : List (StreamItem T))
      → read cap history (start d history next) ≡ none
      → IsFaithful d final (position cap history (start d history next)) rest
      → IsFaithful d final next rest
  unfolding start read position
  read-none cap ordered history final next rest e f =
      let stays : position cap history next ≡ next = ground arith in rw stays at f
  read-none cap latest history final next [] e f = tt
  read-none cap latest history final next (item sequence value ∷ rest) e f =
      (ground (arith, f.0), f.1, f.2)
  read-none cap latest history final next (gap from to ∷ rest) e f = (ground (arith, f.0), f.1, f.2)

  start-IsSequel :
      (d : Delivery) (history : List T) (next : ℕ) → IsSequel d next (start d history next)
  unfolding start
  start-IsSequel ordered history next = refl
  start-IsSequel latest history next = ground arith

  read-item :
      (cap : ℕ) (history : List T) (from sequence : ℕ) (value : T)
      → read cap history from ≡ some (item sequence value)
      → (sequence ≡ from)
        × (get_elem? history from ≡ some value)
        × (position cap history from ≡ from + 1)
  unfolding read position
  read-item cap history from sequence value e = ground arith

  read-gap :
      (cap : ℕ) (history : List T) (from lo hi : ℕ)
      → read cap history from ≡ some (gap lo hi)
      → (lo ≡ from) × (lo < hi) × (position cap history from ≡ hi)
  unfolding read position
  read-gap cap history from lo hi e = ground arith

  -- One item is handed over, and it follows.
  pub read-some :
      (cap : ℕ) (d : Delivery) (history final : List T) (next : ℕ) (i : StreamItem T)
      (rest : List (StreamItem T))
      → IsWithin history final
      → read cap history (start d history next) ≡ some i
      → IsFaithful d final (position cap history (start d history next)) rest
      → IsFaithful d final next (i ∷ rest)
  read-some cap d history final next (item sequence value) rest within e f =
      let (here, at, moved) = read-item cap history (start d history next) sequence value e in
      (
        rw here (start-IsSequel d history next),
        rw here (within _ value at),
        rw here (rw moved at f),
      )
  read-some cap d history final next (gap lo hi) rest within e f =
      let (here, lt, moved) = read-gap cap history (start d history next) lo hi e in
      (rw here (start-IsSequel d history next), lt, rw moved at f)

  -- The history only grows.
  pub extend-IsWithin :
      (cap : ℕ) (history : List T) (s : State T) (call : Call T)
      → IsWithin history (extend cap history s call)
  unfolding extend
  extend-IsWithin cap history s (sends value) i v at = grown (send_now cap s value).0
    where
      grown :
          (r : Result (Unit {0}) (TrySendError T)) → get_elem? (admitted history value r) i ≡ some v
      grown (ok _) =
          get_elem?-append_left history (value ∷ []) i (get_elem?-eq_some history i v at) ∙ at
      grown (err _) = at
      grown panic = at
  extend-IsWithin cap history s (subscribes role) i v at = at
  extend-IsWithin cap history s (receives role) i v at = at
  extend-IsWithin cap history s (closes role) i v at = at
  extend-IsWithin cap history s (detaches role) i v at = at

  pub published-IsWithin :
      (cap : ℕ) (history : List T) (s : State T) (calls : List (Call T))
      → IsWithin history (published cap history s calls)
  unfolding published
  published-IsWithin cap history s [] i v at = at
  published-IsWithin cap history s (c ∷ cs) i v at =
      published-IsWithin cap (extend cap history s c) (step cap s c) cs i v
        (extend-IsWithin cap history s c i v at)
