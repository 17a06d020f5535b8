-- ===== src/Graph/Measures.antt =====
-- `graph/analyzer.py`: `compute_metrics` and `find_critical_functions`.
use cga.Prelude.{
  ℕ, ◌+◌, max, Bool, Option, none, some, List, [], ◌∷◌, length, take, sort_by, if◌then◌else◌,
}
use cga.Text.{Text, text_eq}
use cga.Graph.Calls.{CallGraph, add_text, total_calls, compute_fan_in, compute_fan_out}
use cga.Graph.Cycles.{detect_cycles}
use cga.Graph.Depth.{compute_call_depth}

-- `GraphMetrics`; `Average` is the type of the rounded quotients.
pub record GraphMetrics (Average : Type 0) : Type 0 where
  pub total_symbols : ℕ
  pub total_calls : ℕ
  pub symbols_with_cycles : ℕ
  pub total_cycles : ℕ
  pub max_cycle_length : ℕ
  pub avg_fan_in : Average
  pub avg_fan_out : Average
  pub max_fan_in : ℕ
  pub max_fan_out : ℕ
  pub max_call_depth : ℕ

-- `sum(fan.values())` and `max(fan.values())`, 0 without values.
unfoldable pub sum_of : List (Text × ℕ) → ℕ
sum_of [] = 0
sum_of ((s, n) ∷ rs) = n + sum_of rs

unfoldable pub max_of : List (Text × ℕ) → ℕ
max_of [] = 0
max_of ((s, n) ∷ rs) = max n (max_of rs)

abbrev max_length : List (List Text) → ℕ
max_length [] = 0
max_length (c ∷ cs) = max (length c) (max_length cs)

-- `symbols_in_cycles`
abbrev pub add_texts : List Text → List Text → List Text
add_texts [] seen = seen
add_texts (t ∷ ts) seen = add_texts ts (add_text t seen)

unfoldable pub symbols_in_cycles : List (List Text) → List Text → List Text
unfolding add_text
symbols_in_cycles [] seen = seen
symbols_in_cycles (c ∷ cs) seen = symbols_in_cycles cs (add_texts c seen)

module _ {Average : Type 0} (average : ℕ → ℕ → Average) where
  abbrev pub metrics_of : CallGraph → List (List Text) → List (Text × ℕ) → GraphMetrics Average
  metrics_of g cycles depths = record {
    total_symbols = length g.all_symbols;
    total_calls = total_calls g.graph;
    symbols_with_cycles = length (symbols_in_cycles cycles []);
    total_cycles = length cycles;
    max_cycle_length = max_length cycles;
    avg_fan_in = average (sum_of (compute_fan_in g)) (length g.all_symbols);
    avg_fan_out = average (sum_of (compute_fan_out g)) (length g.all_symbols);
    max_fan_in = max_of (compute_fan_in g);
    max_fan_out = max_of (compute_fan_out g);
    max_call_depth = max_of depths;
  }

  abbrev pub with_depths :
      CallGraph → List (List Text) → Option (List (Text × ℕ)) → Option (GraphMetrics Average)
  with_depths g cycles none = none
  with_depths g cycles (some depths) = some (metrics_of g cycles depths)

  abbrev pub with_cycles : CallGraph → Option (List (List Text)) → Option (GraphMetrics Average)
  with_cycles g none = none
  with_cycles g (some cycles) = with_depths g cycles (compute_call_depth g)

  -- `compute_metrics`
  unfoldable pub compute_metrics : CallGraph → Option (GraphMetrics Average)
  unfolding sum_of max_of symbols_in_cycles detect_cycles compute_call_depth compute_fan_in
      compute_fan_out total_calls
  compute_metrics g = with_cycles g (detect_cycles g)

-- The arithmetic of floats in `find_critical_functions`: the score of a fan-in and a fan-out with their
-- maxima, `>=` of scores, and `int(score * 100)`.
pub record Scores : Type 1 where
  pub Score : Type 0
  pub score : ℕ → ℕ → ℕ → ℕ → Score
  pub at_least : Score → Score → Bool
  pub percent : Score → ℕ

-- `fan.get(symbol, 0)`
unfoldable pub value_of : List (Text × ℕ) → Text → ℕ
value_of [] s = 0
value_of ((t, n) ∷ rs) s = if text_eq t s then n else value_of rs s

-- `max(fan.values()) if fan else 1`
abbrev max_or_one : List (Text × ℕ) → ℕ
max_or_one [] = 1
max_or_one (r ∷ rs) = max_of (r ∷ rs)

module _ (f : Scores) where
  abbrev scored : List (Text × ℕ) → List (Text × ℕ) → List Text → List (Text × f.Score)
  scored fan_in fan_out [] = []
  scored fan_in fan_out (s ∷ ss) =
      (s, f.score (value_of fan_in s) (max_or_one fan_in) (value_of fan_out s) (max_or_one fan_out))
      ∷ scored fan_in fan_out ss

  abbrev percents : List (Text × f.Score) → List (Text × ℕ)
  percents [] = []
  percents ((s, x) ∷ rs) = (s, f.percent x) ∷ percents rs

  abbrev before : Text × f.Score → Text × f.Score → Bool
  before (s, x) (t, y) = f.at_least x y

  unfoldable pub find_critical_functions : ℕ → CallGraph → List (Text × ℕ)
  unfolding value_of max_of compute_fan_in compute_fan_out
  find_critical_functions top_n g =
      percents
        (take top_n (sort_by before (scored (compute_fan_in g) (compute_fan_out g) g.all_symbols)))
