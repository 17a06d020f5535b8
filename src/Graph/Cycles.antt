-- ===== src/Graph/Cycles.antt =====
-- `graph/analyzer.py`: `detect_cycles`. A set is a list of its members.
pub mod Walks
pub mod Visits
pub mod Found
use cga.Prelude.{
  ℕ, zero, suc, Bool, true, false, not, Option, none, some, List, [], ◌∷◌, ◌++◌, length, keep,
  if◌then◌else◌,
}
use cga.Text.{Text, text_eq, has_text}
use cga.Graph.Calls.{CallGraph, others_of}

-- The state that the calls of `dfs` share. A cycle is the list of its symbols, whose length is `CycleInfo.length`.
pub record Search : Type 0 where
  pub visited : List Text
  pub rec_stack : List Text
  pub path : List Text
  pub cycles : List (List Text)

-- `path[path.index(symbol):]`; without the symbol, `index` raises.
unfoldable pub from_first : Text → List Text → Option (List Text)
from_first s [] = none
from_first s (p ∷ ps) = let rest = from_first s ps in if text_eq p s then some (p ∷ ps) else rest

-- `path.pop()`
unfoldable pub but_last : List Text → List Text
but_last [] = []
but_last (p ∷ []) = []
but_last (p ∷ q ∷ ps) = p ∷ but_last (q ∷ ps)

abbrev pub enter : Text → Search → Search
enter node s = record s {
  visited = node ∷ s.visited;
  rec_stack = node ∷ s.rec_stack;
  path = s.path ++ node ∷ [];
}

abbrev pub leave : Text → Search → Search
leave node s = record s {
  path = but_last s.path;
  rec_stack = keep (λ t. not (text_eq t node)) s.rec_stack;
}

abbrev pub report_cycle : Search → Option (List Text) → Option Search
report_cycle s none = none
report_cycle s (some cycle) = some (record s { cycles = s.cycles ++ cycle ∷ [] })

-- One neighbour: `dfs` is the recursive call.
unfoldable pub visit : (Text → Search → Option Search) → Text → Search → Option Search
unfolding from_first
visit dfs n s = elim (has_text s.visited n) [
  | false ↦ dfs n s
  | true ↦ elim (has_text s.rec_stack n) [
    | true ↦ report_cycle s (from_first n s.path)
    | false ↦ some s
  ]
]

abbrev pub then_visit : (Search → Option Search) → Option Search → Option Search
then_visit f none = none
then_visit f (some s) = f s

-- `for neighbor in ...`
unfoldable pub visit_all : (Text → Search → Option Search) → List Text → Search → Option Search
unfolding visit
visit_all dfs [] s = some s
visit_all dfs (n ∷ ns) s = then_visit (visit_all dfs ns) (visit dfs n s)

abbrev pub leave_some : Text → Option Search → Option Search
leave_some node none = none
leave_some node (some s) = some (leave node s)

-- `none` when the fuel is spent, or `path.index` raised.
unfoldable pub dfs : CallGraph → ℕ → Text → Search → Option Search
unfolding visit_all but_last others_of
dfs g zero node s = none
dfs g (suc fuel) node s =
    leave_some node (visit_all (dfs g fuel) (others_of g.graph node) (enter node s))

-- `if symbol not in visited: dfs(symbol, [])`
abbrev pub start_at : CallGraph → Text → Search → Option Search
start_at g n s = elim (has_text s.visited n) [
  | false ↦ dfs g (length g.all_symbols) n (record s { path = [] })
  | true ↦ some s
]

unfoldable pub start_all : CallGraph → List Text → Search → Option Search
unfolding dfs
start_all g [] s = some s
start_all g (n ∷ ns) s = then_visit (start_all g ns) (start_at g n s)

abbrev pub cycles_of : Option Search → Option (List (List Text))
cycles_of none = none
cycles_of (some s) = some s.cycles

abbrev pub no_search : Search
no_search = record { visited = []; rec_stack = []; path = []; cycles = [] }

-- `detect_cycles`; a search goes no deeper than there are symbols.
unfoldable pub detect_cycles : CallGraph → Option (List (List Text))
unfolding start_all
detect_cycles g = cycles_of (start_all g g.all_symbols no_search)
