-- ===== src/Graph/Depth/Reached.antt =====
-- `compute_call_depth` and the chains of calls from the symbols that nobody calls.
use cga.Prelude.{ℕ, suc, ◌≤◌, ◌≡◌, ◌⊎◌, true, false, List}
use cga.Text.{Text, has_text}
use cga.Graph.Calls.{CallGraph, calls}
use cga.Graph.Depth.{is_root}
use cga.Graph.Depth.Waiting.{is_known}

-- A symbol that a chain of so many calls leads to, from one of the graph that nobody calls.
pub data Chain (g : CallGraph) : Text → ℕ → Type 0 where
  root : {s : Text} → has_text g.all_symbols s ≡ true → is_root g s ≡ true → Chain g s 0
  call : {a b : Text} {d : ℕ} → Chain g a d → calls g a b ≡ true → Chain g b (suc d)

module _ (g : CallGraph) where
  -- An entry of the queue, and one of the result.
  abbrev InQueue : Text × ℕ → Type 0
  InQueue (s, d) = Chain g s d

  -- The depth is the length of a shortest chain that leads to the symbol, or 0 where no chain does.
  abbrev pub IsDepth : Text × ℕ → Type 0
  IsDepth (s, d) =
      (Chain g s d × ((e : ℕ) → Chain g s e → d ≤ e)) ⊎ ((d ≡ 0) × ((e : ℕ) → ¬ Chain g s e))

  -- The same while the search goes on, with the depths at which symbols were visited.
  abbrev IsSoFar : (Text → ℕ) → List Text → Text × ℕ → Type 0
  IsSoFar at v (s, d) =
      ((has_text v s ≡ true) × Chain g s d × (d ≡ at s)) ⊎ ((has_text v s ≡ false) × (d ≡ 0))

  -- No symbol that a chain leads to is forgotten, or met later than the chain says.
  record IsComplete (at : Text → ℕ) (v : List Text) (queue : List (Text × ℕ)) : Type 0 where
    roots :
        (s : Text)
        → has_text g.all_symbols s ≡ true
        → is_root g s ≡ true
        → is_known at v queue s 0 ≡ true
    callees :
        (a b : Text)
        → has_text v a ≡ true
        → calls g a b ≡ true
        → is_known at v queue b (suc (at a)) ≡ true

  -- No symbol was visited at a depth above `d`.
  abbrev IsBelow : (Text → ℕ) → List Text → ℕ → Type 0
  IsBelow at v d = (s : Text) → has_text v s ≡ true → at s ≤ d
