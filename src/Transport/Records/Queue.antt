-- ===== src/Transport/Records/Queue.antt =====
-- The history that `Records` promises: the newest `cap` entries, oldest first, and a loss count.
use hiway.Prelude.{
  ℕ, Option, none, some, List, [], ◌∷◌, ◌++◌, length, ◌==◌, if◌then◌else◌, saturating_add, drop,
}

pub record Queue (T : Type 0) : Type 0 where
  pub held : List T
  pub lost : ℕ

module _ {T : Type 0} where
  unfoldable pub push : ℕ → Queue T → T → Queue T
  push cap q entry =
      if length q.held == cap
      then record { held = drop 1 (q.held ++ entry ∷ []); lost = saturating_add q.lost 1 }
      else record q { held = q.held ++ entry ∷ [] }

  unfoldable pub pop : Queue T → Queue T × Option T
  pop q = elim q.held [ [] ↦ (q, none) | entry ∷ rest ↦ (record q { held = rest }, some entry) ]
