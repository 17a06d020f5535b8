-- ===== src/Tests/Agent.antt =====
-- One hit of the graph within a budget of ten tokens, and local files without the words of the query.
use cga.Prelude.{ℕ, ◌+◌, ◌*◌, ◌/◌, ◌≤◌, ◌≡◌, true, false, none, [], ◌∷◌, min, ltb, length}
use cga.Text.{codes}
use cga.Json.{Json, null, str, obj, end, field}
use cga.Agent.Budget.{tokens_of}
use cga.Agent.Quality.{Floats, Python}
use cga.Agent.Fallback.{Files}
use cga.Agent.Strategy.{Source, answered, StrategyConfig, run_cg_first_strategy}
use cga.Agent.Strategy.Bounded.{run_cg_first_strategy_lem}

-- Numbers without a fraction.
abbrev floats : Floats
floats = record {
  F = ℕ;
  nat = λ n. n;
  lit = λ s. 0;
  add = λ a b. a + b;
  mul = λ a b. a * b;
  div = λ a b. a / b;
  min_of = min;
  lt = ltb;
  round3 = λ a. a;
}

abbrev python : Python
python = record {
  strip = λ t. t;
  lower = λ t. t;
  split = λ t. t ∷ [];
  shown = λ v. [];
  size = λ v. 0;
  int_of = λ v. 1;
}

abbrev files : Files
files = record { lines_of = λ p. none; scanned = (codes "a.py", none) ∷ [] }

abbrev hit : Json
hit = obj (field "qualified_name" (str (codes "f")) end)

abbrev source : Source
source = record {
  retrieve_graph_hits = λ query limit. hit ∷ null ∷ [];
  get_call_graph = λ name depth. answered null;
  dumps = λ v. codes "12345678";
}

abbrev config : StrategyConfig floats
config = record {
  graph_top_k = 8;
  min_graph_hits = 1;
  token_budget = 10;
  relation_depth = 1;
  include_relations = true;
  fallback_max_files = 3;
  fallback_context_lines = 3;
  quality_threshold = 0;
}

run_cg_first_strategy_lem_example :
    let r = run_cg_first_strategy floats python files source config (codes "f") in
    (r.estimated_tokens ≤ 10)
    × (r.estimated_tokens
        ≡ tokens_of source.dumps r.graph_context + tokens_of source.dumps r.fallback_context)
    × (r.used_fallback ≡ false
        → (1 ≤ length r.graph_context)
          × (ltb r.quality.quality_score 0 ≡ false)
          × (r.fallback_context ≡ []))
run_cg_first_strategy_lem_example =
    run_cg_first_strategy_lem floats python files source config (codes "f")
