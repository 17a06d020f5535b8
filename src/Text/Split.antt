-- ===== src/Text/Split.antt =====
-- `str.split` on one character, `str.join`, `str.replace` of a character, and tests on characters.
use cga.Prelude.{
  ℕ, ◌≡◌, ◌≢◌, refl, Bool, false, ◌||◌, List, [], ◌∷◌, ◌++◌, arith, ◌==◌, if◌then◌else◌, Bool-cases,
  inl, inr,
}

-- Whether the character stands in the text.
unfoldable pub has_char : ℕ → List ℕ → Bool
has_char c [] = false
has_char c (x ∷ s) = (x == c) || has_char c s

-- `text.replace(a, b)`
unfoldable pub replace_char : ℕ → ℕ → List ℕ → List ℕ
replace_char a b [] = []
replace_char a b (x ∷ s) = (if x == a then b else x) ∷ replace_char a b s

abbrev cons_first : ℕ → List (List ℕ) → List (List ℕ)
cons_first x [] = (x ∷ []) ∷ []
cons_first x (p ∷ ps) = (x ∷ p) ∷ ps

-- `text.split(sep)`: never empty.
unfoldable pub split : ℕ → List ℕ → List (List ℕ)
split sep [] = [] ∷ []
split sep (x ∷ s) = let rest = split sep s in if x == sep then [] ∷ rest else cons_first x rest

-- `sep.join(parts)`
unfoldable pub join : ℕ → List (List ℕ) → List ℕ
join sep [] = []
join sep (p ∷ []) = p
join sep (p ∷ q ∷ ps) = p ++ sep ∷ join sep (q ∷ ps)

split-cons_ne :
    (sep x : ℕ) (s : List ℕ) → (x == sep) ≡ false → split sep (x ∷ s) ≡ cons_first x (split sep s)
unfolding split
split-cons_ne sep x s e = rw e

split-cons_eq : (sep : ℕ) (s : List ℕ) → split sep (sep ∷ s) ≡ [] ∷ split sep s
unfolding split
split-cons_eq sep s = ground arith

join-cons_first : (sep x : ℕ) (ps : List (List ℕ)) → join sep (cons_first x ps) ≡ x ∷ join sep ps
unfolding join
join-cons_first sep x [] = refl
join-cons_first sep x (p ∷ []) = refl
join-cons_first sep x (p ∷ q ∷ ps) = refl

split-ne_nil : (sep : ℕ) (s : List ℕ) → split sep s ≢ []
unfolding split
split-ne_nil sep [] e = cc
split-ne_nil sep (x ∷ s) e = ground (arith, split-ne_nil sep s)

join-nil-cons : (sep : ℕ) (ps : List (List ℕ)) → ps ≢ [] → join sep ([] ∷ ps) ≡ sep ∷ join sep ps
unfolding join
join-nil-cons sep [] h = absurd (h refl)
join-nil-cons sep (p ∷ ps) h = refl

-- Joining what a split gave back gives the text.
pub join-split : (sep : ℕ) (s : List ℕ) → join sep (split sep s) ≡ s
join-split sep [] = unfold split join in refl
join-split sep (x ∷ s) = elim (Bool-cases (x == sep)) [
  | inl e ↦
      let same : x ≡ sep = ground arith in
      rw (
        same,
        split-cons_eq sep s,
        join-nil-cons sep (split sep s) (split-ne_nil sep s),
        join-split sep s,
      )
  | inr e ↦ rw (split-cons_ne sep x s e, join-cons_first, join-split sep s)
]
