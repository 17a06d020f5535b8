-- ===== src/Agent/Budget.antt =====
-- `agent/query_strategy.py`: the estimate of tokens, and the items that fit a budget.
use cga.Prelude.{
  ℕ, ◌+◌, ◌/◌, ◌≤◌, ◌<◌, ◌≡◌, refl, ap, inl, inr, max, true, false, List, [], ◌∷◌, ◌++◌, arith,
  Bool-cases, length, ltb, if◌then◌else◌,
}
use cga.Text.{Text}
use cga.Json.{Json}

-- `estimate_tokens`
unfoldable pub estimate_tokens : Text → ℕ
estimate_tokens [] = 0
estimate_tokens (c ∷ s) = max 1 (length (c ∷ s) / 4)

-- `dumps` is `json.dumps(item, ensure_ascii=True)`.
module _ (dumps : Json → Text) where
  -- The loop of `trim_items_to_budget`, from `used`.
  unfoldable pub trim_from : ℕ → ℕ → List Json → List Json × ℕ
  unfolding estimate_tokens
  trim_from budget used [] = ([], used)
  trim_from budget used (item ∷ items) =
      let rest = trim_from budget (used + estimate_tokens (dumps item)) items in
      if ltb budget (used + estimate_tokens (dumps item))
      then ([], used)
      else (item ∷ rest.0, rest.1)

  unfoldable pub trim_items_to_budget : List Json → ℕ → List Json × ℕ
  unfolding trim_from
  trim_items_to_budget items budget = trim_from budget 0 items

  unfoldable pub tokens_of : List Json → ℕ
  tokens_of [] = 0
  tokens_of (item ∷ items) = estimate_tokens (dumps item) + tokens_of items

  -- What is left of a list after one of its beginnings: nothing, or an item first that does not fit.
  abbrev pub IsFull : ℕ → ℕ → List Json → Type 0
  IsFull budget used [] = Unit
  IsFull budget used (item ∷ items) = budget < used + estimate_tokens (dumps item)

  trim_from_lem :
      (budget used : ℕ) (items : List Json)
      → used ≤ budget
      → let (kept, total) = trim_from budget used items in
        (total ≤ budget)
        × (total ≡ used + tokens_of kept)
        × ((rest : List Json) × (items ≡ kept ++ rest) × IsFull budget total rest)
  unfolding trim_from tokens_of
  trim_from_lem budget used [] h = (h, omega arith, ([], refl, tt))
  trim_from_lem budget used (item ∷ items) h =
      let next = used + estimate_tokens (dumps item) in
      elim (Bool-cases (ltb budget next)) [
        | inl e ↦ rw e (h, omega arith, (item ∷ items, refl, below budget next e))
        | inr e ↦
            let (small, sum, (rest, split, full)) =
              trim_from_lem budget next items (fits budget next e) in
            rw e (small, omega (arith, sum), (rest, ap (λ xs. item ∷ xs) split, full))
      ]
    where
      below : (a b : ℕ) → ltb a b ≡ true → a < b
      below a b e = ground arith

      fits : (a b : ℕ) → ltb a b ≡ false → b ≤ a
      fits a b e = ground arith

  -- The items that are kept are the first ones, as many as the budget allows; their tokens are counted, and
  -- they are within the budget.
  pub trim_items_to_budget_lem :
      (items : List Json) (budget : ℕ)
      → let (kept, used) = trim_items_to_budget items budget in
        (used ≤ budget)
        × (used ≡ tokens_of kept)
        × ((rest : List Json) × (items ≡ kept ++ rest) × IsFull budget used rest)
  unfolding trim_items_to_budget
  trim_items_to_budget_lem items budget =
      let (small, sum, split) = trim_from_lem budget 0 items (omega arith) in
      (small, omega (arith, sum), split)
