-- ===== src/Graph/Depth/Waiting.antt =====
-- `compute_call_depth`: the calls that the search has left, and the symbols that it has visited or queued.
use cga.Prelude.{
  ℕ, suc, ◌+◌, ◌≤◌, ◌≡◌, refl, sym, ap, ◌∙◌, subst, inl, inr, Bool, true, false, ◌&&◌, ◌||◌, not,
  List, [], ◌∷◌, ◌++◌, any, any-append, arith, leb, Bool-cases, length, keep, if◌then◌else◌,
}
use cga.Text.{Text, text_eq, text_eq_sound, text_eq_comm, has_text}
use cga.Graph.Calls.{Node, others_of, total_calls}
use cga.Graph.Depth.{at_depth, unseen}

-- How many edges leave the symbols that are not visited.
pub open_calls : List Node → List Text → ℕ
open_calls [] visited = 0
open_calls (n ∷ ns) visited =
    (if has_text visited n.symbol then 0 else length n.others) + open_calls ns visited

pub open_all : (ns : List Node) → open_calls ns [] ≡ total_calls ns
unfolding open_calls total_calls has_text
open_all [] = refl
open_all (n ∷ ns) = ap (λ m. length n.others + m) (open_all ns)

pub open_le : (ns : List Node) (v : List Text) (s : Text) → open_calls ns (s ∷ v) ≤ open_calls ns v
unfolding open_calls has_text
open_le [] v s = omega arith
open_le (n ∷ ns) v s = ground (arith, open_le ns v s)

pub open_visit :
    (ns : List Node) (v : List Text) (s : Text)
    → has_text v s ≡ false
    → length (others_of ns s) + open_calls ns (s ∷ v) ≤ open_calls ns v
unfolding open_calls has_text others_of
open_visit [] v s h = omega arith
open_visit (n ∷ ns) v s h = elim (Bool-cases (text_eq n.symbol s)) [
  | inl e ↦ ground (
    arith,
    open_le ns v s,
    text_eq_comm s n.symbol,
    ap (has_text v) (text_eq_sound n.symbol s e),
    h,
  )
  | inr e ↦ ground (arith, open_visit ns v s h, text_eq_comm s n.symbol)
]

pub length-unseen : (v ts : List Text) → length (unseen v ts) ≤ length ts
unfolding keep
length-unseen v [] = omega arith
length-unseen v (t ∷ ts) = ground (arith, length-unseen v ts)

pub length-at_depth : (d : ℕ) (ts : List Text) → length (at_depth d ts) ≡ length ts
length-at_depth d [] = refl
length-at_depth d (t ∷ ts) = ap suc (length-at_depth d ts)

-- The symbol waits with a depth that is not above `d`.
abbrev pub in_queue : List (Text × ℕ) → Text → ℕ → Bool
in_queue queue s d = any (λ e. text_eq e.0 s && leb e.1 d) queue

leb_self : (d : ℕ) → leb d d ≡ true
leb_self d = ground arith

pub in_queue-at_depth :
    (d : ℕ) (ts : List Text) (s : Text) → has_text ts s ≡ true → in_queue (at_depth d ts) s d ≡ true
unfolding any has_text
in_queue-at_depth d [] s h = ground (arith, h)
in_queue-at_depth d (t ∷ ts) s h = elim (Bool-cases (text_eq t s)) [
  | inl e ↦ rw (e, leb_self d) refl
  | inr e ↦ ground (arith, h, e, in_queue-at_depth d ts s)
]

pub has_text-keep :
    (p : Text → Bool) (ts : List Text) (s : Text)
    → has_text ts s ≡ true
    → p s ≡ true
    → has_text (keep p ts) s ≡ true
unfolding keep has_text
has_text-keep p [] s h q = ground (arith, h)
has_text-keep p (t ∷ ts) s h q = elim (Bool-cases (text_eq t s)) [
  | inl e ↦ let same : p t ≡ true = ap p (text_eq_sound t s e) ∙ q in rw (same, e) refl
  | inr e ↦ ground (arith, h, e, has_text-keep p ts s)
]

-- A symbol is visited at a depth that is not above `d`, or waits with one.
abbrev pub is_known : (Text → ℕ) → List Text → List (Text × ℕ) → Text → ℕ → Bool
is_known at visited queue s d = (has_text visited s && leb (at s) d) || in_queue queue s d

-- The depths with one more visit.
abbrev pub visited_at : Text → ℕ → (Text → ℕ) → Text → ℕ
visited_at node d at s = if text_eq node s then d else at s

pub known_drop :
    (at : Text → ℕ) (node : Text) (n : ℕ) (v : List Text) (queue : List (Text × ℕ)) (s : Text)
    (d : ℕ)
    → has_text v node ≡ true
    → at node ≤ n
    → is_known at v ((node, n) ∷ queue) s d ≡ true
    → is_known at v queue s d ≡ true
unfolding any
known_drop at node n v queue s d h low k = elim (Bool-cases (text_eq node s)) [
  | inl e ↦
      let same : node ≡ s = text_eq_sound node s e in
      let here : has_text v s ≡ true = ap (has_text v) (sym same) ∙ h in
      let near : at s ≤ n = subst (λ t. at t ≤ n) same low in ground (arith, here, near, k, e)
  | inr e ↦ ground (arith, k, e)
]

pub known_visit :
    (at : Text → ℕ) (node : Text) (n : ℕ) (v : List Text) (queue more : List (Text × ℕ)) (s : Text)
    (d : ℕ)
    → has_text v node ≡ false
    → is_known at v ((node, n) ∷ queue) s d ≡ true
    → is_known (visited_at node n at) (node ∷ v) (queue ++ more) s d ≡ true
unfolding any has_text
known_visit at node n v queue more s d new k = elim (Bool-cases (text_eq node s)) [
  | inl e ↦
      let gone : has_text v s ≡ false = ap (has_text v) (sym (text_eq_sound node s e)) ∙ new in
      ground (arith, k, gone, e, any-append (λ e. text_eq e.0 s && leb e.1 d) queue more)
  | inr e ↦ ground (arith, k, e, any-append (λ e. text_eq e.0 s && leb e.1 d) queue more)
]

pub known_callee :
    (at : Text → ℕ) (d : ℕ) (v : List Text) (queue : List (Text × ℕ)) (ts : List Text) (s : Text)
    → has_text ts s ≡ true
    → (has_text v s ≡ true → at s ≤ d)
    → is_known at v (queue ++ at_depth d (unseen v ts)) s d ≡ true
known_callee at d v queue ts s h low = elim (Bool-cases (has_text v s)) [
  | inl e ↦ let near : at s ≤ d = low e in ground (arith, e, near)
  | inr e ↦
      let new : not (has_text v s) ≡ true = ap not e in
      let waits : in_queue (at_depth d (unseen v ts)) s d ≡ true =
        in_queue-at_depth d (unseen v ts) s (has_text-keep (λ t. not (has_text v t)) ts s h new) in
      ground (
        arith,
        waits,
        any-append (λ e. text_eq e.0 s && leb e.1 d) queue (at_depth d (unseen v ts)),
      )
]

pub visited_known : (b : Bool) (n d : ℕ) → ((b && leb n d) || false) ≡ true → (b ≡ true) × (n ≤ d)
visited_known b n d h = (ground (arith, h), ground (arith, h))

pub has_text_later :
    (node : Text) (v : List Text) (a : Text)
    → text_eq node a ≡ false
    → has_text (node ∷ v) a ≡ true
    → has_text v a ≡ true
unfolding has_text
has_text_later node v a e k = ground (arith, e, k)

pub clash : (b : Bool) → b ≡ true → b ≡ false → ⊥
clash b h k = ground (arith, h, k)
