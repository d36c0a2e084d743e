-- ===== src/Transport/Records/Runs.antt =====
-- No sequence of calls tells the ring of `Records` from the history that it promises.
use hiway.Prelude.{ℕ, ◌≡◌, refl, ap, Option, none, List, [], ◌∷◌}
use mathlib.Core.Path.{ap₂}
use hiway.Transport.Records.{Records, new, push, pop}
use hiway.Transport.Records.Queue
use hiway.Transport.Records.Queue.{Queue}
use hiway.Transport.Records.Refine.{IsHolding, new-IsHolding, push-IsHolding, pop-IsHolding}

pub data Call (T : Type 0) : Type 0 where
  pushes : T → Call T
  pops : Call T

module _ {T : Type 0} (cap : ℕ) where
  -- What each `pop` returns, and the loss count after each call.
  unfoldable pub run : Records T → List (Call T) → List (Option T × ℕ)
  run r [] = []
  run r (pushes entry ∷ cs) = let r' = push cap r entry in (none, r'.lost) ∷ run r' cs
  run r (pops ∷ cs) = let (r', entry) = pop cap r in (entry, r'.lost) ∷ run r' cs

  unfoldable pub run_queue : Queue T → List (Call T) → List (Option T × ℕ)
  run_queue q [] = []
  run_queue q (pushes entry ∷ cs) =
      let q' = Queue.push cap q entry in (none, q'.lost) ∷ run_queue q' cs
  run_queue q (pops ∷ cs) = let (q', entry) = Queue.pop q in (entry, q'.lost) ∷ run_queue q' cs

  run_from :
      (r : Records T) (q : Queue T) (cs : List (Call T))
      → IsHolding cap r q
      → run r cs ≡ run_queue q cs
  unfolding run run_queue
  run_from r q [] v = refl
  run_from r q (pushes entry ∷ cs) v =
      let v' = push-IsHolding cap r q entry v in
      ap₂ ◌∷◌ (ap (λ n. (none, n)) v'.lost)
        (run_from (push cap r entry) (Queue.push cap q entry) cs v')
  run_from r q (pops ∷ cs) v =
      let (v', e) = pop-IsHolding cap r q.held q.lost v in
      ap₂ ◌∷◌ (ap₂ (λ a n. (a, n)) e v'.lost) (run_from (pop cap r).0 (Queue.pop q).0 cs v')

  -- From a new ring, every sequence of pushes and pops returns what the bounded history returns,
  -- and counts the same losses.
  pub run-new :
      (cs : List (Call T)) → run (new cap) cs ≡ run_queue (record { held = []; lost = 0 }) cs
  run-new cs = run_from (new cap) (record { held = []; lost = 0 }) cs (new-IsHolding cap)
