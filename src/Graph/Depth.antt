-- ===== src/Graph/Depth.antt =====
-- `graph/analyzer.py`: `compute_call_depth`, a breadth-first search from the symbols that nobody calls.
pub mod Waiting
pub mod Levels
pub mod Reached
use cga.Prelude.{
  ℕ, zero, suc, ◌+◌, max, Bool, true, false, not, Option, none, some, List, [], ◌∷◌, ◌++◌, length,
  keep, if◌then◌else◌,
}
use cga.Text.{Text, text_eq, has_text}
use cga.Graph.Calls.{CallGraph, others_of, total_calls}

abbrev is_empty : List Text → Bool
is_empty [] = true
is_empty (t ∷ ts) = false

-- `not self._reverse_graph.get(sym, set())`
unfoldable pub is_root : CallGraph → Text → Bool
unfolding others_of
is_root g s = is_empty (others_of g.reverse_graph s)

-- `result[node] = max(result[node], depth)`, which stands for `result[node]` of a missing key too.
unfoldable pub raise_depth : Text → ℕ → List (Text × ℕ) → List (Text × ℕ)
raise_depth s d [] = []
raise_depth s d ((t, e) ∷ rs) = (t, if text_eq t s then max e d else e) ∷ raise_depth s d rs

abbrev pub at_depth : ℕ → List Text → List (Text × ℕ)
at_depth d [] = []
at_depth d (s ∷ ss) = (s, d) ∷ at_depth d ss

abbrev pub unseen : List Text → List Text → List Text
unseen visited ts = keep (λ t. not (has_text visited t)) ts

-- `while queue`; `none` when the fuel is spent.
unfoldable pub levels :
    CallGraph → ℕ → List (Text × ℕ) → List Text → List (Text × ℕ) → Option (List (Text × ℕ))
unfolding raise_depth others_of
levels g fuel [] visited result = some result
levels g zero (e ∷ queue) visited result = none
levels g (suc fuel) ((node, depth) ∷ queue) visited result = elim (has_text visited node) [
  | true ↦ levels g fuel queue visited result
  | false ↦
      levels g fuel
        (queue ++ at_depth (suc depth) (unseen (node ∷ visited) (others_of g.graph node)))
        (node ∷ visited) (raise_depth node depth result)
]

-- Each symbol enters the queue as a root, or for a call of a symbol that was not visited yet.
unfoldable pub compute_call_depth : CallGraph → Option (List (Text × ℕ))
unfolding levels is_root total_calls
compute_call_depth g =
    let roots = keep (is_root g) g.all_symbols in
    levels g (length roots + total_calls g.graph) (at_depth 0 roots) [] (at_depth 0 g.all_symbols)
