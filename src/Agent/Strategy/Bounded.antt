-- ===== src/Agent/Strategy/Bounded.antt =====
-- The context of the strategy is within its budget, and without a fallback the graph was enough.
use cga.Prelude.{
  ℕ, ◌+◌, ◌-◌, ◌≤◌, ◌≡◌, refl, inl, inr, Bool, true, false, List, [], arith, Bool-cases, length,
  keep, map, ltb,
}
use cga.Text.{Text}
use cga.Json.{Json}
use cga.Agent.Budget.{trim_items_to_budget, tokens_of, trim_items_to_budget_lem}
use cga.Agent.Quality.{Floats, Python, evaluate_graph_quality, decide_fallback}
use cga.Agent.Fallback.{Files, build_local_fallback_snippets}
use cga.Agent.Strategy.{
  Source, StrategyConfig, is_dict, graph_item, fallback_items, run_cg_first_strategy,
}

fallback_tokens :
    (f : Python) (files : Files) (source : Source) (query : Text) (hits : List Json)
    (max_files context remaining : ℕ) (used : Bool)
    → let (items, tokens) =
        fallback_items f files source query hits max_files context remaining used in
      (tokens ≤ remaining) × (tokens ≡ tokens_of source.dumps items) × (used ≡ false → items ≡ [])
unfolding fallback_items tokens_of
fallback_tokens f files source query hits max_files context remaining false =
    (omega arith, refl, λ e. refl)
fallback_tokens f files source query hits max_files context remaining true =
    let (small, sum, split) =
      trim_items_to_budget_lem source.dumps
        (build_local_fallback_snippets f files query hits max_files context) remaining in
    (small, sum, λ e. ground (arith, e))

module _ (x : Floats) (f : Python) (items : List Json) (query : Text) (min_graph_hits : ℕ)
    (threshold : x.F) where
  sufficient :
      let (used, (reason, quality)) = decide_fallback x f items query min_graph_hits threshold in
      used ≡ false
      → (min_graph_hits ≤ length items) × (x.lt quality.quality_score threshold ≡ false)
  unfolding decide_fallback
  sufficient = elim (Bool-cases (ltb (length items) min_graph_hits)) [
    | inl few ↦ rw few (λ e. absurd (ground (arith, e)))
    | inr many ↦
        elim (Bool-cases (x.lt (evaluate_graph_quality x f items query).quality_score threshold)) [
          | inl low ↦ rw (many, low) (λ e. absurd (ground (arith, e)))
          | inr good ↦ rw (many, good) (λ e. (enough many, good))
        ]
  ]
    where
      enough : ltb (length items) min_graph_hits ≡ false → min_graph_hits ≤ length items
      enough h = ground (arith, h)

-- The estimate is what the items of the two contexts add up to, and is within the budget; and where no fallback was used,
-- there are enough items from the graph, their score is not below the threshold, and the context of the fallback is empty.
pub run_cg_first_strategy_lem :
    (x : Floats) (f : Python) (files : Files) (source : Source) (c : StrategyConfig x)
    (query : Text)
    → let r = run_cg_first_strategy x f files source c query in
      (r.estimated_tokens ≤ c.token_budget)
      × (r.estimated_tokens
          ≡ tokens_of source.dumps r.graph_context + tokens_of source.dumps r.fallback_context)
      × (r.used_fallback ≡ false
          → (c.min_graph_hits ≤ length r.graph_context)
            × (x.lt r.quality.quality_score c.quality_threshold ≡ false)
            × (r.fallback_context ≡ []))
unfolding run_cg_first_strategy
run_cg_first_strategy_lem x f files source c query =
    let hits = keep is_dict (source.retrieve_graph_hits query c.graph_top_k) in
    let found = map (graph_item f source c.include_relations c.relation_depth) hits in
    let kept = trim_items_to_budget source.dumps found c.token_budget in
    let used = (decide_fallback x f kept.0 query c.min_graph_hits c.quality_threshold).0 in
    let (small, sum, split) = trim_items_to_budget_lem source.dumps found c.token_budget in
    let (small', sum', none) =
      fallback_tokens f files source query hits c.fallback_max_files c.fallback_context_lines
        (c.token_budget - kept.1) used in
    (
      omega (arith, small, small'),
      omega (arith, sum, sum'),
      λ e.
          let (many, good) = sufficient x f kept.0 query c.min_graph_hits c.quality_threshold e in
          (many, good, none e),
    )
