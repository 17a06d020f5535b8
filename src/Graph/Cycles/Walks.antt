-- ===== src/Graph/Cycles/Walks.antt =====
-- Walks in the call graph, and what holds during the search of `detect_cycles`.
use cga.Prelude.{
  ℕ, suc, ◌+◌, ◌≤◌, ◌<◌, ◌≡◌, refl, ap, ◌∙◌, subst, inl, inr, Bool, true, false, ◌&&◌, ◌||◌, not,
  Option, some, List, [], ◌∷◌, ◌++◌, arith, Bool-cases, length, keep, All, if◌then◌else◌,
}
use cga.Text.{Text, text_eq, text_eq_sound, text_eq_comm, has_text}
use cga.Graph.Calls.{CallGraph, calls}
use cga.Graph.Cycles.{Search, from_first, but_last}

pub has_text-without :
    (x : Text) (ts : List Text) (t : Text)
    → has_text (keep (λ u. not (text_eq u x)) ts) t ≡ (has_text ts t && not (text_eq t x))
unfolding has_text keep
has_text-without x [] t = refl
has_text-without x (u ∷ ts) t = elim (Bool-cases (text_eq u t)) [
  | inl e ↦ ground (arith, has_text-without x ts t, ap (λ v. text_eq v x) (text_eq_sound u t e))
  | inr e ↦ ground (arith, has_text-without x ts t)
]

pub but_last-snoc : (p : List Text) (x : Text) → but_last (p ++ x ∷ []) ≡ p
unfolding but_last
but_last-snoc [] x = refl
but_last-snoc (a ∷ []) x = refl
but_last-snoc (a ∷ b ∷ p) x = ap (λ q. a ∷ q) (but_last-snoc (b ∷ p) x)

-- How many of the symbols are not visited.
unfoldable pub left : List Text → List Text → ℕ
left [] visited = 0
left (t ∷ ts) visited = (if has_text visited t then 0 else 1) + left ts visited

pub left_le :
    (ts v w : List Text)
    → ((t : Text) → has_text v t ≡ true → has_text w t ≡ true)
    → left ts w ≤ left ts v
unfolding left
left_le [] v w h = omega arith
left_le (t ∷ ts) v w h = ground (arith, h t, left_le ts v w h)

pub left_lt :
    (ts v : List Text) (x : Text)
    → has_text ts x ≡ true
    → has_text v x ≡ false
    → suc (left ts (x ∷ v)) ≤ left ts v
unfolding left has_text
left_lt [] v x h k = ground arith
left_lt (t ∷ ts) v x h k = elim (Bool-cases (text_eq t x)) [
  | inl e ↦ ground (
    arith,
    ap (has_text v) (text_eq_sound t x e),
    text_eq_comm t x,
    left_le ts v (x ∷ v) (λ u m. ground arith),
  )
  | inr e ↦ ground (arith, text_eq_comm t x, left_lt ts v x)
]

pub left-length : (ts : List Text) → left ts [] ≤ length ts
unfolding left has_text
left-length [] = omega arith
left-length (t ∷ ts) = omega (arith, left-length ts)

module _ (g : CallGraph) where
  -- Each symbol calls the next one.
  unfoldable pub walks : List Text → Bool
  walks [] = true
  walks (a ∷ []) = true
  walks (a ∷ b ∷ ps) = calls g a b && walks (b ∷ ps)

  -- Each symbol calls the next one, and the last the first.
  abbrev pub IsCycle : List Text → Type 0
  IsCycle [] = ⊥
  IsCycle (a ∷ ps) = walks (a ∷ ps ++ a ∷ []) ≡ true

  pub walks-snoc :
      (p : List Text) (x y : Text)
      → walks (p ++ x ∷ []) ≡ true
      → calls g x y ≡ true
      → walks ((p ++ x ∷ []) ++ y ∷ []) ≡ true
  unfolding walks
  walks-snoc [] x y h k = ground arith
  walks-snoc (a ∷ []) x y h k = ground arith
  walks-snoc (a ∷ b ∷ p) x y h k = ground (arith, walks-snoc (b ∷ p) x y)

  pub walks_tail : (a : Text) (p : List Text) → walks (a ∷ p) ≡ true → walks p ≡ true
  unfolding walks
  walks_tail a [] h = refl
  walks_tail a (b ∷ p) h = ground arith

  pub from_first-walks :
      (s : Text) (p q : List Text)
      → has_text p s ≡ true
      → walks (p ++ q) ≡ true
      → (r : List Text) × (from_first s p ≡ some (s ∷ r)) × (walks (s ∷ r ++ q) ≡ true)
  unfolding from_first has_text
  from_first-walks s [] q h k = ground arith
  from_first-walks s (a ∷ p) q h k = elim (Bool-cases (text_eq a s)) [
    | inl e ↦ (
      p,
      rw e (ap (λ t. some (t ∷ p)) (text_eq_sound a s e)),
      subst (λ t. walks (t ∷ p ++ q) ≡ true) (text_eq_sound a s e) k,
    )
    | inr e ↦
        let (r, found, w) = from_first-walks s p q (ground arith) (walks_tail a (p ++ q) k) in
        (r, rw e found, w)
  ]

  -- Each symbol calls only those after it.
  abbrev pub IsTopological : List Text → Type 0
  IsTopological [] = Unit
  IsTopological (t ∷ ds) =
      (has_text ds t ≡ false)
      × ((u : Text) → calls g t u ≡ true → has_text ds u ≡ true)
      × IsTopological ds

  -- The search on a path, where the calls for the symbols of `done` are over.
  pub record Inv (p done : List Text) (s : Search) : Type 0 where
    pub at : s.path ≡ p
    pub stack : (t : Text) → has_text s.rec_stack t ≡ has_text p t
    pub seen : (t : Text) → has_text s.visited t ≡ (has_text p t || has_text done t)
    pub apart : (t : Text) → has_text p t ≡ true → has_text done t ≡ false
    pub sound : All IsCycle s.cycles
    pub order : s.cycles ≡ [] → IsTopological done

  -- A call that returned: it is over for the symbols `ns`, unless a cycle was found.
  pub record Returned (p done : List Text) (s : Search) (ns : List Text) (o : Option Search)
      : Type 0 where
    pub next : Search
    pub over : List Text
    pub returns : o ≡ some next
    pub inv : Inv p over next
    pub grows : (t : Text) → has_text done t ≡ true → has_text over t ≡ true
    pub quiet : next.cycles ≡ [] → s.cycles ≡ []
    pub covers : next.cycles ≡ [] → (t : Text) → has_text ns t ≡ true → has_text over t ≡ true

  -- How many symbols stand after one.
  rank : List Text → Text → ℕ
  rank [] t = 0
  rank (d ∷ ds) t = if text_eq d t then suc (length ds) else rank ds t

  rank_le : (ds : List Text) (t : Text) → rank ds t ≤ length ds
  unfolding rank
  rank_le [] t = omega arith
  rank_le (d ∷ ds) t = ground (arith, rank_le ds t)

  call_falls :
      (ds : List Text) (a b : Text)
      → IsTopological ds
      → has_text ds a ≡ true
      → calls g a b ≡ true
      → (has_text ds b ≡ true) × (rank ds b < rank ds a)
  unfolding rank has_text
  call_falls [] a b o h c = ground arith
  call_falls (d ∷ ds) a b (fresh, later, o) h c = elim (Bool-cases (text_eq d a)) [
    | inl e ↦
        let here = later b (ap (λ t. calls g t b) (text_eq_sound d a e) ∙ c) in
        let off = other d b ds here fresh in
        (rw (off, here) refl, rw (e, off) (omega (arith, rank_le ds b)))
    | inr e ↦
        let (here, lower) = call_falls ds a b o (ground (arith, h, e)) c in
        let off = other d b ds here fresh in (rw (off, here) refl, rw (e, off) lower)
  ]
    where
      other :
          (d b : Text) (ds : List Text)
          → has_text ds b ≡ true
          → has_text ds d ≡ false
          → text_eq d b ≡ false
      other d b ds here fresh = elim (Bool-cases (text_eq d b)) [
        | inl e ↦ ground (arith, ap (has_text ds) (text_eq_sound d b e), here, fresh)
        | inr e ↦ e
      ]

  walk_falls :
      (ds : List Text) (a c : Text) (p : List Text)
      → IsTopological ds
      → has_text ds a ≡ true
      → walks (a ∷ p ++ c ∷ []) ≡ true
      → rank ds c < rank ds a
  unfolding walks
  walk_falls ds a c [] o h w = (call_falls ds a c o h (ground (arith, w))).1
  walk_falls ds a c (b ∷ p) o h w =
      let (here, lower) = call_falls ds a b o h (ground (arith, w)) in
      omega (arith, lower, walk_falls ds b c p o here (ground (arith, w)))

  first_calls :
      (a c : Text) (p : List Text)
      → walks (a ∷ p ++ c ∷ []) ≡ true
      → (b : Text) × (calls g a b ≡ true)
  unfolding walks
  first_calls a c [] w = (c, ground arith)
  first_calls a c (b ∷ p) w = (b, ground arith)

  -- When each symbol calls only those after it, there are no cycles among them.
  pub no-IsCycle :
      (ds c : List Text)
      → IsTopological ds
      → ((a b : Text) → calls g a b ≡ true → has_text ds a ≡ true)
      → ¬ IsCycle c
  no-IsCycle ds [] o covers w = w
  no-IsCycle ds (a ∷ p) o covers w =
      let (b, c) = first_calls a a p w in omega (arith, walk_falls ds a a p o (covers a b c) w)
