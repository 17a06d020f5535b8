-- ===== src/Agent/Quality.antt =====
-- `agent/query_strategy.py`: the score of an item, the quality of a context, and whether a fallback is needed.
use cga.Prelude.{
  ℕ, ◌+◌, Bool, true, false, not, ◌||◌, String, Option, none, some, List, [], ◌∷◌, map, keep, any,
  length, ltb, max, if◌then◌else◌,
}
use cga.Text.{Text, contains, distinct_texts}
use cga.Json.{Json, obj, Fields, end, get, truthy, or_else, given_text}

-- Floats: the number of a count and of a literal, the arithmetic, and `round(x, 3)`.
pub record Floats : Type 1 where
  pub F : Type 0
  pub nat : ℕ → F
  pub lit : String → F
  pub add : F → F → F
  pub mul : F → F → F
  pub div : F → F → F
  pub min_of : F → F → F
  pub lt : F → F → Bool
  pub round3 : F → F

-- `str.strip`, `str.lower`, `str.split`, `str(value)` of a value that is no text, `len(value)`, and `int(value)` of a line number.
pub record Python : Type 0 where
  pub strip : Text → Text
  pub lower : Text → Text
  pub split : Text → List Text
  pub shown : Json → Text
  pub size : Json → ℕ
  pub int_of : Json → ℕ

abbrev pub is_blank : Text → Bool
is_blank [] = true
is_blank (c ∷ s) = false

abbrev pub fields_of : Json → Fields
fields_of (obj fs) = fs
fields_of v = end

-- `_query_terms`
unfoldable pub query_terms : Python → Text → List Text
unfolding distinct_texts
query_terms f query = distinct_texts (
    map (λ part. f.lower (f.strip part))
      (keep (λ part. not (is_blank (f.strip part))) (f.split query)))

abbrev size_or_zero : Python → Option Json → ℕ
size_or_zero f none = 0
size_or_zero f (some v) = f.size v

abbrev pub is_given : Option Json → Bool
is_given none = false
is_given (some v) = truthy v

module _ (x : Floats) where
  abbrev when : Bool → String → x.F
  when b s = if b then x.lit s else x.lit "0.0"

  abbrev pub at_least : x.F → x.F → Bool
  at_least a b = not (x.lt a b)

  -- `score_graph_item`
  abbrev score_of : ℕ → ℕ → Bool → ℕ → Bool → x.F
  score_of matched terms snippet relations symbol = x.min_of (x.lit "1.0") (
      x.add
        (x.add
          (x.add (x.mul (x.div (x.nat matched) (x.nat (max 1 terms))) (x.lit "0.5"))
            (when snippet "0.2"))
          (x.min_of (x.lit "0.2") (x.mul (x.lit "0.05") (x.nat relations))))
        (when symbol "0.1"))

  abbrev score_terms : Python → Fields → List Text → x.F
  score_terms f item [] = x.lit "0.0"
  score_terms f item (t ∷ ts) =
      let name = f.lower (given_text f.shown (get item "qualified_name")) in
      let summary = f.lower (given_text f.shown (get item "summary")) in
      score_of (length (keep (λ term. contains term name || contains term summary) (t ∷ ts)))
        (length (t ∷ ts)) (not (is_blank (given_text f.shown (get item "snippet"))))
        (size_or_zero f (or_else (get item "callers") none)
          + size_or_zero f (or_else (get item "callees") none))
        (is_given (get item "symbol_type"))

  unfoldable pub score_graph_item : Python → Json → Text → x.F
  unfolding query_terms get given_text or_else contains truthy
  score_graph_item f item query = score_terms f (fields_of item) (query_terms f query)

  pub record Quality : Type 0 where
    pub quality_score : x.F
    pub avg_item_score : x.F
    pub matched_items : ℕ
    pub has_snippets : Bool

  abbrev scores : Python → List Json → Text → List x.F
  scores f [] query = []
  scores f (item ∷ items) query = score_graph_item f item query ∷ scores f items query

  -- `sum(scores)`, from the left.
  abbrev sum_from : x.F → List x.F → x.F
  sum_from s [] = s
  sum_from s (n ∷ ns) = sum_from (x.add s n) ns

  abbrev quality_of : ℕ → List x.F → Bool → Quality
  quality_of count ns snippets =
      let avg = x.div (sum_from (x.nat 0) ns) (x.nat (length ns)) in
      let bonus = x.min_of (x.lit "0.15") (x.mul (x.lit "0.03") (x.nat count)) in
      record {
        quality_score =
            x.round3 (x.min_of (x.lit "1.0") (x.add (x.add avg bonus) (when snippets "0.1")));
        avg_item_score = x.round3 avg;
        matched_items = length (keep (λ n. at_least n (x.lit "0.45")) ns);
        has_snippets = snippets;
      }

  -- `evaluate_graph_quality`
  unfoldable pub evaluate_graph_quality : Python → List Json → Text → Quality
  unfolding score_graph_item
  evaluate_graph_quality f [] query = record {
    quality_score = x.lit "0.0";
    avg_item_score = x.lit "0.0";
    matched_items = 0;
    has_snippets = false;
  }
  evaluate_graph_quality f (item ∷ items) query =
      quality_of (length (item ∷ items)) (scores f (item ∷ items) query)
        (any (λ i. is_given (get (fields_of i) "snippet")) (item ∷ items))

-- The reason of `decide_fallback`.
pub data Reason : Type 0 where
  insufficient_graph_hits low_graph_quality graph_context_sufficient : Reason

-- `decide_fallback`: whether a fallback is needed, and why.
unfoldable pub decide_fallback :
    (x : Floats) → Python → List Json → Text → ℕ → x.F → Bool × (Reason × Quality x)
unfolding evaluate_graph_quality
decide_fallback x f items query min_graph_hits quality_threshold =
    let quality = evaluate_graph_quality x f items query in
    if ltb (length items) min_graph_hits
    then (true, (insufficient_graph_hits, quality))
    else if x.lt quality.quality_score quality_threshold
    then (true, (low_graph_quality, quality))
    else (false, (graph_context_sufficient, quality))
