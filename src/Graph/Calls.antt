-- ===== src/Graph/Calls.antt =====
-- `graph/analyzer.py`: the call graph, and how many callers and callees a symbol has. A set is a list of its members.
pub mod Built
use cga.Prelude.{
  ℕ, zero, suc, ◌+◌, ◌≡◌, max, Bool, true, false, ◌||◌, List, [], ◌∷◌, ◌++◌, length, if◌then◌else◌,
}
use cga.Text.{Text, text_eq, has_text}

-- A symbol with the set of its callees, or of its callers.
pub record Node : Type 0 where
  pub symbol : Text
  pub others : List Text

-- `CallGraphAnalyzer`
pub record CallGraph : Type 0 where
  pub graph : List Node
  pub reverse_graph : List Node
  pub all_symbols : List Text

-- `graph.get(symbol, set())`
unfoldable pub others_of : List Node → Text → List Text
others_of [] s = []
others_of (n ∷ ns) s = if text_eq n.symbol s then n.others else others_of ns s

unfoldable pub calls : CallGraph → Text → Text → Bool
unfolding others_of
calls g a b = has_text (others_of g.graph a) b

-- `members.add(member)`
unfoldable pub add_text : Text → List Text → List Text
add_text t ts = if has_text ts t then ts else ts ++ t ∷ []

-- `graph[a].add(b)` of a `defaultdict(set)`
unfoldable pub add_edge : Text → Text → List Node → List Node
unfolding add_text
add_edge a b [] = record { symbol = a; others = b ∷ [] } ∷ []
add_edge a b (n ∷ ns) =
    let rest = add_edge a b ns in
    if text_eq n.symbol a then record n { others = add_text b n.others } ∷ ns else n ∷ rest

unfoldable pub has_node : List Node → Text → Bool
has_node [] s = false
has_node (n ∷ ns) s = text_eq n.symbol s || has_node ns s

-- `if sym not in graph: graph[sym] = set()`
unfoldable pub add_node : Text → List Node → List Node
unfolding has_node
add_node s ns = if has_node ns s then ns else ns ++ record { symbol = s; others = [] } ∷ []

abbrev pub add_call : Text → Text → CallGraph → CallGraph
add_call a b g = record {
  graph = add_edge a b g.graph;
  reverse_graph = add_edge b a g.reverse_graph;
  all_symbols = add_text b (add_text a g.all_symbols);
}

unfoldable pub add_calls : List (Text × Text) → CallGraph → CallGraph
unfolding add_edge add_text
add_calls [] g = g
add_calls ((a, b) ∷ pairs) g = add_calls pairs (add_call a b g)

unfoldable pub add_nodes : List Text → List Node → List Node
unfolding add_node
add_nodes [] ns = ns
add_nodes (s ∷ ss) ns = add_nodes ss (add_node s ns)

abbrev pub no_calls : CallGraph
no_calls = record { graph = []; reverse_graph = []; all_symbols = [] }

abbrev complete : CallGraph → CallGraph
complete g = record g {
  graph = add_nodes g.all_symbols g.graph;
  reverse_graph = add_nodes g.all_symbols g.reverse_graph;
}

-- `build_from_calls`
unfoldable pub build_from_calls : List (Text × Text) → CallGraph
unfolding add_calls add_nodes
build_from_calls pairs = complete (add_calls pairs no_calls)

-- `compute_fan_in` and `compute_fan_out`
abbrev pub fan : List Node → List Text → List (Text × ℕ)
fan ns [] = []
fan ns (s ∷ ss) = (s, length (others_of ns s)) ∷ fan ns ss

unfoldable pub compute_fan_in : CallGraph → List (Text × ℕ)
compute_fan_in g = fan g.reverse_graph g.all_symbols

unfoldable pub compute_fan_out : CallGraph → List (Text × ℕ)
compute_fan_out g = fan g.graph g.all_symbols

-- `total_calls` of `compute_metrics`
unfoldable pub total_calls : List Node → ℕ
total_calls [] = 0
total_calls (n ∷ ns) = length n.others + total_calls ns

-- Both ends of a call are symbols of the graph.
abbrev pub IsClosed : CallGraph → Type 0
IsClosed g =
    (a b : Text)
    → calls g a b ≡ true
    → (has_text g.all_symbols a ≡ true) × (has_text g.all_symbols b ≡ true)
