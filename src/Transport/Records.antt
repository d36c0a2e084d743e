-- ===== src/Transport/Records.antt =====
-- hiway/src/transport/accountability.rs, Records: a fixed FIFO that drops its oldest entry.
pub mod Queue
pub mod Refine
pub mod Runs
mod Tests
use hiway.Prelude.{
  ℕ, ◌+◌, ◌-◌, ◌%◌, Option, none, some, List, ◌==◌, if◌then◌else◌, set, replicate, get_elem?,
  saturating_add,
}

pub record Records (T : Type 0) : Type 0 where
  pub entries : List (Option T)
  pub head : ℕ
  pub len : ℕ
  pub lost : ℕ

module _ {T : Type 0} where
  unfoldable pub new : ℕ → Records T
  new cap = record { entries = replicate cap none; head = 0; len = 0; lost = 0 }

  abbrev pub add_lost : Records T → ℕ → Records T
  add_lost r count = record r { lost = saturating_add r.lost count }

  -- `head + len` and `head + 1` stay below twice the number of entries, which fit the address space.
  unfoldable pub push : ℕ → Records T → T → Records T
  push cap r entry =
      if cap == 0
      then add_lost r 1
      else if r.len == cap
      then add_lost
          (record r { entries = set r.entries r.head (some entry); head = (r.head + 1) % cap }) 1
      else record r {
        entries = set r.entries ((r.head + r.len) % cap) (some entry);
        len = r.len + 1;
      }

  -- `take()` on a slot leaves `None`; a read out of range cannot happen at `len > 0`.
  abbrev pub taken : Option (Option T) → Option T
  taken none = none
  taken (some slot) = slot

  unfoldable pub pop : ℕ → Records T → Records T × Option T
  pop cap r = if r.len == 0 then (r, none) else (
    record r { entries = set r.entries r.head none; head = (r.head + 1) % cap; len = r.len - 1 },
    taken (get_elem? r.entries r.head),
  )
