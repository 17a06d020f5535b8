-- ===== src/Tests/Graph.antt =====
-- A graph of three calls, two of them a cycle.
use cga.Prelude.{◌≡◌, refl, some, List, [], ◌∷◌, All, any, keep}
use cga.Text.{Text, codes, text_eq, has_text}
use cga.Graph.Calls.{
  CallGraph, others_of, calls, add_text, add_edge, has_node, add_node, add_calls, add_nodes,
  build_from_calls, total_calls, IsClosed,
}
use cga.Graph.Calls.Built.{is_pair, build_from_calls_lem}
use cga.Graph.Cycles.{from_first, but_last, visit, visit_all, dfs, start_all, detect_cycles}
use cga.Graph.Cycles.Walks.{IsCycle}
use cga.Graph.Cycles.Found.{detect_cycles_lem}

abbrev pairs : List (Text × Text)
pairs = (codes "main", codes "f") ∷ (codes "f", codes "g") ∷ (codes "g", codes "f") ∷ []

abbrev built : CallGraph
built = build_from_calls pairs

-- The cycle of f and g.
cycles_found : detect_cycles built ≡ some ((codes "f" ∷ codes "g" ∷ []) ∷ [])
unfolding text_eq has_text others_of calls add_text add_edge has_node add_node add_calls add_nodes
    build_from_calls from_first but_last visit visit_all dfs start_all detect_cycles keep
cycles_found = refl

build_from_calls_lem_example :
    ((a b : Text) → calls built a b ≡ any (is_pair a b) pairs)
    × ((a b : Text) → has_text (others_of built.reverse_graph b) a ≡ any (is_pair a b) pairs)
    × (total_calls built.graph ≡ total_calls built.reverse_graph)
    × IsClosed built
build_from_calls_lem_example = build_from_calls_lem pairs

built-IsClosed : IsClosed built
built-IsClosed = (build_from_calls_lem pairs).3

detect_cycles_lem_example :
    (cs : List (List Text)) × (detect_cycles built ≡ some cs)
    × All (IsCycle built) cs
    × (cs ≡ [] → (c : List Text) → ¬ IsCycle built c)
detect_cycles_lem_example = detect_cycles_lem built built-IsClosed
