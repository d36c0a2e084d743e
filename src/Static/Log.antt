-- ===== src/Static/Log.antt =====
-- What a retained stream promises: a log that keeps every publication and shows the last `cap`.
use hiway.Prelude.{
  ℕ, ◌+◌, ◌-◌, max, Option, none, some, List, ltb, if◌then◌else◌, get_elem?, length,
}
use hiway.Event.{Delivery}
use hiway.Static.{StreamItem, item, gap, is_latest}

module _ {T : Type 0} where
  -- Where a subscriber that stands at `next` reads: a latest-state one skips to the newest.
  unfoldable pub start : Delivery → List T → ℕ → ℕ
  start delivery history next = if is_latest delivery then max next (length history - 1) else next

  -- What is read at `next`: the range that is gone, the publication, or nothing at the end.
  unfoldable pub read : ℕ → List T → ℕ → Option (StreamItem T)
  read cap history next =
      if ltb next (length history - cap)
      then some (gap next (length history - cap))
      else elim (get_elem? history next) [ none ↦ none | some value ↦ some (item next value) ]

  -- Where the subscriber stands afterwards.
  unfoldable pub position : ℕ → List T → ℕ → ℕ
  position cap history next =
      if ltb next (length history - cap)
      then length history - cap
      else elim (get_elem? history next) [ none ↦ next | some value ↦ next + 1 ]
