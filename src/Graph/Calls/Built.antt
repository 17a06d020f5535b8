-- ===== src/Graph/Calls/Built.antt =====
-- What `build_from_calls` builds: the graph of exactly the pairs, and its mirror image.
use cga.Prelude.{
  ℕ, ◌+◌, ◌≡◌, refl, sym, ap, ◌∙◌, inl, inr, Bool, true, false, ◌&&◌, ◌||◌, List, [], ◌∷◌, ◌++◌,
  arith, Bool-cases, length, length-append, any, if◌then◌else◌,
}
use cga.Text.{Text, text_eq, text_eq_sound, text_eq_comm, has_text, has_text-snoc}
use cga.Graph.Calls.{
  Node, CallGraph, others_of, calls, add_text, add_edge, has_node, add_node, add_call, add_calls,
  add_nodes, no_calls, build_from_calls, total_calls, IsClosed,
}

-- Whether the pair is one of the list.
abbrev pub is_pair : Text → Text → Text × Text → Bool
is_pair a b (c, d) = text_eq c a && text_eq d b

has_text-add_text :
    (t : Text) (ts : List Text) (u : Text)
    → has_text (add_text t ts) u ≡ (has_text ts u || text_eq t u)
unfolding add_text
has_text-add_text t ts u = elim (Bool-cases (has_text ts t)) [
  | inl e ↦ elim (Bool-cases (text_eq t u)) [
    | inl q ↦ rw e (ground (arith, ap (has_text ts) (text_eq_sound t u q)))
    | inr q ↦ rw e (ground (arith, q))
  ]
  | inr e ↦ rw e (has_text-snoc ts t u)
]

-- The edges of a graph as a relation.
abbrev edge : List Node → Text → Text → Bool
edge ns c d = has_text (others_of ns c) d

edge-add_edge :
    (a b : Text) (ns : List Node) (c d : Text)
    → edge (add_edge a b ns) c d ≡ (edge ns c d || (text_eq a c && text_eq b d))
unfolding others_of add_edge has_text
edge-add_edge a b [] c d = elim (Bool-cases (text_eq a c)) [
  | inl e ↦ rw e (ground arith)
  | inr e ↦ rw e (ground arith)
]
edge-add_edge a b (n ∷ ns) c d = elim (Bool-cases (text_eq n.symbol a)) [
  | inl e ↦ rw e (elim (Bool-cases (text_eq n.symbol c)) [
    | inl q ↦
        rw (q, ap (λ t. text_eq t c) (sym (text_eq_sound n.symbol a e)), q)
          (has_text-add_text b n.others d)
    | inr q ↦ rw (q, ap (λ t. text_eq t c) (sym (text_eq_sound n.symbol a e)), q) (ground arith)
  ])
  | inr e ↦ rw e (elim (Bool-cases (text_eq n.symbol c)) [
    | inl q ↦
        rw q
          (ground (arith, e, ap (λ t. text_eq t a) (text_eq_sound n.symbol c q), text_eq_comm c a))
    | inr q ↦ rw q (edge-add_edge a b ns c d)
  ])
]

others_of_end :
    (s : Text) (ns : List Node) (c : Text)
    → others_of (ns ++ record { symbol = s; others = [] } ∷ []) c ≡ others_of ns c
unfolding others_of
others_of_end s [] c = elim (Bool-cases (text_eq s c)) [ inl e ↦ rw e refl | inr e ↦ rw e refl ]
others_of_end s (n ∷ ns) c =
    ap (λ r. if text_eq n.symbol c then n.others else r) (others_of_end s ns c)

others_of-add_node :
    (s : Text) (ns : List Node) (c : Text) → others_of (add_node s ns) c ≡ others_of ns c
unfolding add_node
others_of-add_node s ns c = elim (Bool-cases (has_node ns s)) [
  | inl e ↦ rw e refl
  | inr e ↦ rw e (others_of_end s ns c)
]

others_of-add_nodes :
    (ss : List Text) (ns : List Node) (c : Text) → others_of (add_nodes ss ns) c ≡ others_of ns c
unfolding add_nodes
others_of-add_nodes [] ns c = refl
others_of-add_nodes (s ∷ ss) ns c =
    others_of-add_nodes ss (add_node s ns) c ∙ others_of-add_node s ns c

total_end :
    (s : Text) (ns : List Node)
    → total_calls (ns ++ record { symbol = s; others = [] } ∷ []) ≡ total_calls ns
unfolding total_calls
total_end s [] = omega arith
total_end s (n ∷ ns) = ap (λ m. length n.others + m) (total_end s ns)

total-add_node : (s : Text) (ns : List Node) → total_calls (add_node s ns) ≡ total_calls ns
unfolding add_node
total-add_node s ns = elim (Bool-cases (has_node ns s)) [
  | inl e ↦ rw e refl
  | inr e ↦ rw e (total_end s ns)
]

total-add_nodes : (ss : List Text) (ns : List Node) → total_calls (add_nodes ss ns) ≡ total_calls ns
unfolding add_nodes
total-add_nodes [] ns = refl
total-add_nodes (s ∷ ss) ns = total-add_nodes ss (add_node s ns) ∙ total-add_node s ns

length-add_text :
    (t : Text) (ts : List Text)
    → length (add_text t ts) ≡ (if has_text ts t then 0 else 1) + length ts
unfolding add_text
length-add_text t ts = elim (Bool-cases (has_text ts t)) [
  | inl e ↦ rw e (omega arith)
  | inr e ↦ rw e (omega (arith, length-append ts (t ∷ [])))
]

-- A new edge counts once.
total-add_edge :
    (a b : Text) (ns : List Node)
    → total_calls (add_edge a b ns) ≡ (if edge ns a b then 0 else 1) + total_calls ns
unfolding total_calls add_edge others_of has_text
total-add_edge a b [] = omega arith
total-add_edge a b (n ∷ ns) = elim (Bool-cases (text_eq n.symbol a)) [
  | inl e ↦ rw e (omega (arith, length-add_text b n.others))
  | inr e ↦ rw e (omega (arith, total-add_edge a b ns))
]

-- The callers are the mirror image of the callees.
abbrev IsMirrored : CallGraph → Type 0
IsMirrored g =
    ((a b : Text) → edge g.graph a b ≡ edge g.reverse_graph b a)
    × (total_calls g.graph ≡ total_calls g.reverse_graph)

add_call_mirrors : (a b : Text) (g : CallGraph) → IsMirrored g → IsMirrored (add_call a b g)
add_call_mirrors a b g (mirror, total) = (
  λ c d.
      edge-add_edge a b g.graph c d
      ∙ ground (arith, mirror c d, edge-add_edge b a g.reverse_graph d c),
  omega (
    arith,
    total-add_edge a b g.graph,
    total-add_edge b a g.reverse_graph,
    ap {B = ℕ} (λ e. if e then 0 else 1) (mirror a b),
    total,
  ),
)

add_calls_mirror :
    (pairs : List (Text × Text)) (g : CallGraph) → IsMirrored g → IsMirrored (add_calls pairs g)
unfolding add_calls
add_calls_mirror [] g m = m
add_calls_mirror ((a, b) ∷ pairs) g m =
    add_calls_mirror pairs (add_call a b g) (add_call_mirrors a b g m)

add_calls_edges :
    (pairs : List (Text × Text)) (g : CallGraph) (a b : Text)
    → edge (add_calls pairs g).graph a b ≡ (edge g.graph a b || any (is_pair a b) pairs)
unfolding add_calls any
add_calls_edges [] g a b = ground arith
add_calls_edges ((c, d) ∷ pairs) g a b =
    add_calls_edges pairs (add_call c d g) a b ∙ ground (arith, edge-add_edge c d g.graph a b)

-- Both ends of each edge are symbols.
abbrev IsKnown : CallGraph → Type 0
IsKnown g =
    (a b : Text)
    → edge g.graph a b ≡ true
    → (has_text g.all_symbols a ≡ true) × (has_text g.all_symbols b ≡ true)

add_call-IsKnown : (c d : Text) (g : CallGraph) → IsKnown g → IsKnown (add_call c d g)
add_call-IsKnown c d g known a b h = elim (Bool-cases (edge g.graph a b)) [
  | inl e ↦ (was a (known a b e).0, was b (known a b e).1)
  | inr e ↦ (new_first e, new_second e)
]
  where
    was :
        (t : Text)
        → has_text g.all_symbols t ≡ true
        → has_text (add_text d (add_text c g.all_symbols)) t ≡ true
    was t k = ground (
      arith,
      has_text-add_text d (add_text c g.all_symbols) t,
      has_text-add_text c g.all_symbols t,
    )

    new_first : edge g.graph a b ≡ false → has_text (add_text d (add_text c g.all_symbols)) a ≡ true
    new_first e = ground (
      arith,
      has_text-add_text d (add_text c g.all_symbols) a,
      has_text-add_text c g.all_symbols a,
      edge-add_edge c d g.graph a b,
      h,
      e,
    )

    new_second :
        edge g.graph a b ≡ false → has_text (add_text d (add_text c g.all_symbols)) b ≡ true
    new_second e = ground (
      arith,
      has_text-add_text d (add_text c g.all_symbols) b,
      has_text-add_text c g.all_symbols b,
      edge-add_edge c d g.graph a b,
      h,
      e,
    )

add_calls-IsKnown :
    (pairs : List (Text × Text)) (g : CallGraph) → IsKnown g → IsKnown (add_calls pairs g)
unfolding add_calls
add_calls-IsKnown [] g k = k
add_calls-IsKnown ((a, b) ∷ pairs) g k =
    add_calls-IsKnown pairs (add_call a b g) (add_call-IsKnown a b g k)

-- The graph built from pairs of caller and callee has a call exactly for each pair; the callers of a symbol are the
-- mirror image of the callees, so that the callers and the callees are as many; and both ends of a call are symbols.
pub build_from_calls_lem :
    (pairs : List (Text × Text))
    → let g = build_from_calls pairs in
      ((a b : Text) → calls g a b ≡ any (is_pair a b) pairs)
      × ((a b : Text) → has_text (others_of g.reverse_graph b) a ≡ any (is_pair a b) pairs)
      × (total_calls g.graph ≡ total_calls g.reverse_graph)
      × IsClosed g
unfolding build_from_calls calls has_text
build_from_calls_lem pairs =
    let g = add_calls pairs no_calls in
    let (mirror, total) = add_calls_mirror pairs no_calls (λ a b. refl, refl) in
    let known = add_calls-IsKnown pairs no_calls (λ a b h. ground (arith, h)) in
    let same =
      λ (c d : Text). ap (λ ts. has_text ts d) (others_of-add_nodes g.all_symbols g.graph c) in
    (
      λ a b. same a b ∙ add_calls_edges pairs no_calls a b,
      λ a b.
          ap (λ ts. has_text ts a) (others_of-add_nodes g.all_symbols g.reverse_graph b)
          ∙ sym (mirror a b)
          ∙ add_calls_edges pairs no_calls a b,
      total-add_nodes g.all_symbols g.graph
          ∙ total
          ∙ sym (total-add_nodes g.all_symbols g.reverse_graph),
      λ a b h. known a b (sym (same a b) ∙ h),
    )
