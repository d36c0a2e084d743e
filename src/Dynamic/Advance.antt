-- ===== src/Dynamic/Advance.antt =====
-- The sections of a thread keep a stream in shared storage valid, and there are boundedly many.
use hiway.Prelude.{ℕ, zero, suc, ◌+◌, ◌*◌, Bool, true, false, Option, none, some, List, [], ◌∷◌}
use hiway.Event.{Delivery, ordered, latest}
use hiway.Dynamic.{State}
use hiway.Dynamic.Work.{
  Goal, stops, reserving, Work, maintaining, retiring, making_room, checking, charging, freeing,
  answered, finished, Around, advance,
}
use hiway.Dynamic.Retained.{Valid}
use hiway.Dynamic.Kept.{drop_retired-Valid, retire_turn-Valid, make_room-Valid, free_turn-Valid}

module _ {T : Type 0} where
  pub advance-Valid :
      (delivery : Delivery) (capacity : ℕ) (revoked : ℕ → Bool) (a : Around) (s : State T)
      (work : Work T)
      → Valid capacity revoked s
      → Valid capacity revoked (advance delivery capacity revoked a s work).0
  unfolding advance
  advance-Valid latest capacity revoked a s (maintaining goal) h =
      drop_retired-Valid capacity revoked a.busy s h
  advance-Valid ordered capacity revoked a s (maintaining goal) h = h
  advance-Valid delivery capacity revoked a s (retiring zero goal) h = h
  advance-Valid latest capacity revoked a s (retiring (suc turns) goal) h = h
  advance-Valid ordered capacity revoked a s (retiring (suc turns) goal) h =
      retire_turn-Valid capacity revoked a.busy s h
  advance-Valid delivery capacity revoked a s (making_room goal) h =
      make_room-Valid capacity revoked a.busy s h
  advance-Valid delivery capacity revoked a s (checking zero node value) h = h
  advance-Valid delivery capacity revoked a s (checking (suc turns) node value) h = h
  advance-Valid delivery capacity revoked a s (charging turns node value) h = h
  advance-Valid delivery capacity revoked a s (freeing turns node value) h =
      free_turn-Valid capacity revoked a.busy node s value h
  advance-Valid delivery capacity revoked a s (answered result) h = h
  advance-Valid delivery capacity revoked a s finished h = h

  abbrev pub goal_left : ℕ → Goal T → ℕ
  goal_left capacity stops = 0
  goal_left capacity (reserving node value) = 3 * capacity + 4

  abbrev pub after_left : ℕ → Option (Goal T) → ℕ
  after_left capacity none = 0
  after_left capacity (some goal) = goal_left capacity goal + 1

  -- A bound on the sections that a thread has yet to run.
  abbrev pub left : ℕ → Work T → ℕ
  left capacity (maintaining goal) = capacity + 3 + goal_left capacity goal
  left capacity (retiring turns goal) = turns + 1 + after_left capacity goal
  left capacity (making_room goal) = goal_left capacity goal + 1
  left capacity (checking turns node value) = 3 * turns + 1
  left capacity (charging turns node value) = 3 * turns + 3
  left capacity (freeing turns node value) = 3 * turns + 2
  left capacity (answered result) = 0
  left capacity finished = 0

-- What a section of a thread finds, after whatever other threads did since its last one.
pub record Moment (T : Type 0) : Type 0 where
  pub stream : State T
  pub revoked : ℕ → Bool
  pub around : Around

module _ {T : Type 0} where
  abbrev pub is_over : Work T → Bool
  is_over (answered result) = true
  is_over finished = true
  is_over _ = false

  -- A thread that runs `reserve`, or has its answer.
  abbrev pub reserves : Work T → Bool
  reserves (maintaining (reserving node value)) = true
  reserves (retiring turns (some (reserving node value))) = true
  reserves (making_room (reserving node value)) = true
  reserves (checking turns node value) = true
  reserves (charging turns node value) = true
  reserves (freeing turns node value) = true
  reserves (answered result) = true
  reserves _ = false

  -- The place of a thread after one section at each moment.
  unfoldable pub follow : Delivery → ℕ → List (Moment T) → Work T → Work T
  follow delivery capacity [] work = work
  follow delivery capacity (m ∷ ms) work =
      follow delivery capacity ms (advance delivery capacity m.revoked m.around m.stream work).1
