-- ===== src/Text/Order.antt =====
-- Prefixes of texts, the order of texts by code points, and sorted lists of distinct texts.
use cga.Prelude.{
  ℕ, ◌≡◌, refl, Bool, true, false, ◌&&◌, ◌||◌, List, [], ◌∷◌, arith, ◌==◌, ltb, if◌then◌else◌,
}

-- `text.startswith(prefix)`
unfoldable pub starts_with : List ℕ → List ℕ → Bool
starts_with [] text = true
starts_with (p ∷ ps) [] = false
starts_with (p ∷ ps) (c ∷ cs) = (p == c) && starts_with ps cs

-- `part in text`
unfoldable pub contains : List ℕ → List ℕ → Bool
contains part [] = starts_with part []
contains part (c ∷ s) = let rest = contains part s in starts_with part (c ∷ s) || rest

-- `a <= b`
unfoldable pub text_leb : List ℕ → List ℕ → Bool
text_leb [] t = true
text_leb (a ∷ s) [] = false
text_leb (a ∷ s) (b ∷ t) =
    let rest = text_leb s t in if ltb a b then true else (if a == b then rest else false)

pub text_leb-total : (s t : List ℕ) → text_leb s t ≡ false → text_leb t s ≡ true
unfolding text_leb
text_leb-total [] t h = ground arith
text_leb-total (a ∷ s) [] h = refl
text_leb-total (a ∷ s) (b ∷ t) h = ground (arith, text_leb-total s t)

-- `text.rstrip(c)`
abbrev keep_or_drop : ℕ → ℕ → List ℕ → List ℕ
keep_or_drop c x [] = if x == c then [] else x ∷ []
keep_or_drop c x (y ∷ s) = x ∷ y ∷ s

unfoldable pub rstrip_char : ℕ → List ℕ → List ℕ
rstrip_char c [] = []
rstrip_char c (x ∷ s) = keep_or_drop c x (rstrip_char c s)

-- `text.lstrip(c)`
unfoldable pub lstrip_char : ℕ → List ℕ → List ℕ
lstrip_char c [] = []
lstrip_char c (x ∷ s) = let rest = lstrip_char c s in if x == c then rest else x ∷ s
