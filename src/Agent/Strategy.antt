-- ===== src/Agent/Strategy.antt =====
-- `agent/query_strategy.py`: `run_cg_first_strategy`, the graph first and the local files where it is not enough.
pub mod Bounded
use cga.Prelude.{
  ℕ, suc, ◌+◌, ◌-◌, Bool, true, false, not, ◌&&◌, ◌||◌, String, Option, none, some, List, [], ◌∷◌,
  keep, map, length, if◌then◌else◌,
}
use cga.Text.{Text}
use cga.Json.{
  Json, null, str, arr, nil, obj, Fields, end, field, get, set_field, or_else, truthy, given_text,
}
use cga.Agent.Budget.{trim_items_to_budget}
use cga.Agent.Quality.{
  Floats, Python, is_blank, fields_of, is_given, Quality, Reason, decide_fallback,
}
use cga.Agent.Fallback.{Files, build_local_fallback_snippets}

-- What the call graph of a symbol comes to: an exception with its text, or a value.
pub data Related : Type 0 where
  failed : Text → Related
  answered : Json → Related

-- The callables of the graph, and `json.dumps(item, ensure_ascii=True)`.
pub record Source : Type 0 where
  pub retrieve_graph_hits : Text → ℕ → List Json
  pub get_call_graph : Text → ℕ → Related
  pub dumps : Json → Text

-- The budget of tokens and the other numbers are not negative.
pub record StrategyConfig (x : Floats) : Type 0 where
  pub graph_top_k : ℕ
  pub min_graph_hits : ℕ
  pub token_budget : ℕ
  pub relation_depth : ℕ
  pub include_relations : Bool
  pub fallback_max_files : ℕ
  pub fallback_context_lines : ℕ
  pub quality_threshold : x.F

abbrev pub is_dict : Json → Bool
is_dict (obj fs) = true
is_dict v = false

abbrev value_or : Json → Option Json → Json
value_or default none = default
value_or default (some v) = v

-- `item.setdefault(key, value)`
abbrev default_if : String → Json → Fields → Option Json → Fields
default_if k v fs none = set_field k v fs
default_if k v fs (some w) = fs

abbrev set_default : String → Json → Fields → Fields
set_default k v fs = default_if k v fs (get fs k)

abbrev with_relations : Fields → Related → Fields
with_relations item (failed text) = set_field "relation_error" (str text) item
with_relations item (answered (obj graph)) =
    set_field "callees" (value_or (arr nil) (get graph "callees"))
      (set_field "callers" (value_or (arr nil) (get graph "callers")) item)
with_relations item (answered v) = item

-- The item of a hit, with its relations.
unfoldable pub graph_item : Python → Source → Bool → ℕ → Json → Json
unfolding get set_field given_text or_else truthy
graph_item f source include_relations depth hit =
    let fs = fields_of hit in
    let name = given_text f.shown (get fs "qualified_name") in
    let item = set_default "line_end" null (
      set_default "line_start" null (
        set_default "file_path" null
          (set_default "symbol_type" null (set_default "qualified_name" (str name) fs)))) in
    if include_relations
      && (not (is_blank name)
          && not (is_given (get item "callers") || is_given (get item "callees")))
    then obj (with_relations item (source.get_call_graph name depth))
    else obj item

pub record StrategyResult (x : Floats) : Type 0 where
  pub estimated_tokens : ℕ
  pub graph_hits_total : ℕ
  pub graph_context : List Json
  pub quality : Quality x
  pub fallback_reason : Reason
  pub used_fallback : Bool
  pub fallback_context : List Json

-- The local snippets within what is left of the budget, where they are needed.
unfoldable pub fallback_items :
    Python → Files → Source → Text → List Json → ℕ → ℕ → ℕ → Bool → List Json × ℕ
unfolding build_local_fallback_snippets trim_items_to_budget
fallback_items f files source query hits max_files context remaining false = ([], 0)
fallback_items f files source query hits max_files context remaining true =
    trim_items_to_budget source.dumps
      (build_local_fallback_snippets f files query hits max_files context) remaining

unfoldable pub run_cg_first_strategy :
    (x : Floats) → Python → Files → Source → StrategyConfig x → Text → StrategyResult x
unfolding graph_item trim_items_to_budget decide_fallback fallback_items
run_cg_first_strategy x f files source c query =
    let hits = keep is_dict (source.retrieve_graph_hits query c.graph_top_k) in
    let (items, graph_tokens) =
      trim_items_to_budget source.dumps
        (map (graph_item f source c.include_relations c.relation_depth) hits) c.token_budget in
    let (used, (reason, quality)) =
      decide_fallback x f items query c.min_graph_hits c.quality_threshold in
    let (fallback, fallback_tokens) =
      fallback_items f files source query hits c.fallback_max_files c.fallback_context_lines
        (c.token_budget - graph_tokens) used in
    record {
      estimated_tokens = graph_tokens + fallback_tokens;
      graph_hits_total = length hits;
      graph_context = items;
      quality = quality;
      fallback_reason = reason;
      used_fallback = used;
      fallback_context = fallback;
    }
