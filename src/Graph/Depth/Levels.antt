-- ===== src/Graph/Depth/Levels.antt =====
-- `compute_call_depth`: the queue of a breadth-first search, one depth and then the next.
use cga.Prelude.{
  ℕ, suc, ◌≤◌, ◌≡◌, ◌⊎◌, refl, sym, subst, inl, inr, List, [], ◌∷◌, ◌++◌, arith, All, All-append,
}
use cga.Text.{Text}
use cga.Graph.Depth.{at_depth}

-- The depths of a queue: `lo` first, and then one more.
abbrev pub InLevels : ℕ → List (Text × ℕ) → Type 0
InLevels lo [] = Unit
InLevels lo ((t, e) ∷ queue) =
    ((e ≡ lo) × InLevels lo queue) ⊎ ((e ≡ suc lo) × All (λ p. p.1 ≡ suc lo) queue)

InLevels-same : (d : ℕ) (queue : List (Text × ℕ)) → All (λ p. p.1 ≡ d) queue → InLevels d queue
InLevels-same d [] a = tt
InLevels-same d ((t, e) ∷ queue) (h, a) = inl (h, InLevels-same d queue a)

InLevels-next : (d : ℕ) (queue : List (Text × ℕ)) → All (λ p. p.1 ≡ suc d) queue → InLevels d queue
InLevels-next d [] a = tt
InLevels-next d ((t, e) ∷ queue) (h, a) = inr (h, a)

pub InLevels-append :
    (d : ℕ) (queue more : List (Text × ℕ))
    → InLevels d queue
    → All (λ p. p.1 ≡ suc d) more
    → InLevels d (queue ++ more)
InLevels-append d [] more l a = InLevels-next d more a
InLevels-append d ((t, e) ∷ queue) more (inl (h, l)) a = inl (h, InLevels-append d queue more l a)
InLevels-append d ((t, e) ∷ queue) more (inr (h, l)) a =
    inr (h, All-append (λ p. p.1 ≡ suc d) queue more l a)

pub All-at_depth : (d : ℕ) (ts : List Text) → All (λ p. p.1 ≡ d) (at_depth d ts)
All-at_depth d [] = tt
All-at_depth d (t ∷ ts) = (refl, All-at_depth d ts)

pub InLevels-at_depth : (d : ℕ) (ts : List Text) → InLevels d (at_depth d ts)
InLevels-at_depth d ts = InLevels-same d (at_depth d ts) (All-at_depth d ts)

-- After the first entry, the levels begin at its depth.
pub InLevels-tail :
    (lo : ℕ) (t : Text) (e : ℕ) (queue : List (Text × ℕ))
    → InLevels lo ((t, e) ∷ queue)
    → (lo ≤ e) × InLevels e queue
InLevels-tail lo t e queue (inl (h, l)) =
    (omega (arith, h), subst (λ d. InLevels d queue) (sym h) l)
InLevels-tail lo t e queue (inr (h, a)) =
    (omega (arith, h), subst (λ d. InLevels d queue) (sym h) (InLevels-same (suc lo) queue a))
