-- ===== src/Dynamic/Work.antt =====
-- hiway/src/alloc_local.rs: `Stream::maintain`, `DynamicSender::reserve` and the drop of a receiver,
-- which let go of the lock between their sections, so that other threads run in between.
use hiway.Prelude.{ℕ, zero, suc, Bool, Option, none, some, if◌then◌else◌, Result, ok, err, panic}
use hiway.Event.{Delivery}
use hiway.Errors.{TopicError, TrySendError}
use hiway.Dynamic.{State, is_latest, drop_retired, retire_turn, make_room}
use hiway.Dynamic.Calls.{check_turn, charge_turn, free_turn}

-- What a thread does after `maintain`: nothing, or the loop of `reserve` for a node and a value.
pub data Goal (T : Type 0) : Type 0 where
  stops : Goal T
  reserving : ℕ → T → Goal T

-- Where a thread is: before the first section of `maintain`; before a turn of the loop of
-- `retire_consumed`, with the turns that are left and, unless a drop runs it, what follows; before the
-- last section of `maintain`; in the loop of `reserve` before its checks, its charge or its second use
-- of the lock, with the turns that are left; or at the end.
pub data Work (T : Type 0) : Type 0 where
  maintaining : Goal T → Work T
  retiring : ℕ → Option (Goal T) → Work T
  making_room : Goal T → Work T
  checking charging freeing : ℕ → ℕ → T → Work T
  answered : Result (Unit {0}) (TrySendError T) → Work T
  finished : Work T

-- What a section meets: whether the lock is held elsewhere, and the result of a charge.
pub record Around : Type 0 where
  pub busy : Bool
  pub charged : Result (Unit {0}) TopicError

module _ {T : Type 0} where
  -- The loop of `reserve` has one turn more than the capacity.
  abbrev pub resume : ℕ → Goal T → Work T
  resume capacity stops = finished
  resume capacity (reserving node value) = checking (suc capacity) node value

  -- After `retire_consumed`.
  abbrev pub leave : Option (Goal T) → Work T
  leave none = finished
  leave (some goal) = making_room goal

  -- `reserve` up to its loop or its maintenance, by the result of the entry.
  unfoldable pub begin_reserve : Delivery → ℕ → Result (Unit {0}) TopicError → ℕ → T → Work T
  begin_reserve delivery capacity entered node value = elim entered [
    | err TopicError.contended ↦ answered (err (TrySendError.contended value))
    | err TopicError.capacity ↦ answered (err (TrySendError.contended value))
    | err _ ↦ answered (err (TrySendError.revoked value))
    | panic ↦ answered panic
    | ok _ ↦
        if is_latest delivery
        then maintaining (reserving node value)
        else resume capacity (reserving node value)
  ]

  abbrev pub answer_or : Option (TrySendError T) → Work T → Work T
  answer_or none next = next
  answer_or (some error) next = answered (err error)

  abbrev pub charged_to : Option (Result (Unit {0}) (TrySendError T)) → Work T → Work T
  charged_to none next = next
  charged_to (some result) next = answered result

  -- One section of a thread, which uses the lock at most once.
  unfoldable pub advance : Delivery → ℕ → (ℕ → Bool) → Around → State T → Work T → State T × Work T
  unfolding drop_retired retire_turn make_room check_turn charge_turn free_turn
  advance delivery capacity revoked a s (maintaining goal) =
      (if is_latest delivery then drop_retired a.busy s else s, retiring capacity (some goal))
  advance delivery capacity revoked a s (retiring zero goal) = (s, leave goal)
  advance delivery capacity revoked a s (retiring (suc turns) goal) =
      if is_latest delivery
      then (s, leave goal)
      else let (later, goes_on) = retire_turn revoked a.busy s in
        (later, if goes_on then retiring turns goal else leave goal)
  advance delivery capacity revoked a s (making_room goal) =
      (make_room capacity revoked a.busy s, resume capacity goal)
  advance delivery capacity revoked a s (checking zero node value) =
      (s, answered (err (TrySendError.full value)))
  advance delivery capacity revoked a s (checking (suc turns) node value) =
      (s, answer_or (check_turn capacity revoked a.busy node s value) (charging turns node value))
  advance delivery capacity revoked a s (charging turns node value) =
      (s, charged_to (charge_turn delivery value a.charged) (freeing turns node value))
  advance delivery capacity revoked a s (freeing turns node value) =
      let (later, refused) = free_turn revoked a.busy node s value in
      (later, answer_or refused (checking turns node value))
  advance delivery capacity revoked a s (answered result) = (s, answered result)
  advance delivery capacity revoked a s finished = (s, finished)
