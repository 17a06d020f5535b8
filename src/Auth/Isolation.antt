-- ===== src/Auth/Isolation.antt =====
-- `authorized_graph` and the names of graphs: what different bindings authorize.
use cga.Prelude.{
  ◌≡◌, refl, sym, ap, ◌∙◌, ◌⊎◌, inl, inr, true, false, not, ◌||◌, Option, none, some, [], ◌∷◌, ◌++◌,
  length, ltb, arith, Bool-cases, if◌then◌else◌,
}
use cga.Text.{starts_with, Text, codes, text_eq}
use cga.Http.{ok, http, >>=-eq-ok, Result-cases}
use cga.Auth.Context.{
  Functions, reserved_graph_prefix, branch_graph_prefix, is_graph_name, is_empty, ProjectScope,
  Context, or_current, validate_project_graph_name, is_default_ref, project_branch_prefix,
  branch_graph_name, graph_name, usable, require_project_scope, graph_of, authorized_graph_name,
}

append_cancel :
    (xs ys zs ws : Text) → length xs ≡ length ys → xs ++ zs ≡ ys ++ ws → (xs ≡ ys) × (zs ≡ ws)
append_cancel [] [] zs ws n e = (refl, e)
append_cancel [] (y ∷ ys) zs ws n e = ground arith
append_cancel (x ∷ xs) [] zs ws n e = ground arith
append_cancel (x ∷ xs) (y ∷ ys) zs ws n e =
    let (same, rest) = append_cancel xs ys zs ws (omega (arith, n)) (cc e) in (cc (e, same), rest)

append_assoc : (xs ys zs : Text) → (xs ++ ys) ++ zs ≡ xs ++ (ys ++ zs)
append_assoc [] ys zs = refl
append_assoc (x ∷ xs) ys zs = ap (λ ws. x ∷ ws) (append_assoc xs ys zs)

-- What the functions must satisfy: a hex digest of SHA-256 has 64 digits; `strip` leaves the empty text.
pub record IsFunctions (f : Functions) : Type 0 where
  pub digits : (t : Text) → length (f.sha256 t) ≡ 64
  pub empty : f.strip [] ≡ []

module _ (f : Functions) where
  -- The name of a default graph is not in the reserved namespace.
  name_unreserved :
      (t g : Text)
      → validate_project_graph_name f t ≡ ok g
      → (g ≡ f.lower (f.strip t)) × (starts_with reserved_graph_prefix g ≡ false)
  unfolding validate_project_graph_name
  name_unreserved t g h =
      let name = f.lower (f.strip t) in
      elim (Bool-cases (starts_with reserved_graph_prefix name)) [
        | inl e ↦ ground arith
        | inr e ↦ elim (Bool-cases (is_graph_name name)) [
          | inl q ↦
              let same : name ≡ g = ground arith in
              (sym same, ap (starts_with reserved_graph_prefix) (sym same) ∙ e)
          | inr q ↦ ground arith
        ]
      ]

  -- What the name of a branch graph is made of.
  branch_made :
      (id ref g : Text)
      → branch_graph_name f id ref ≡ ok g
      → g ≡ branch_graph_prefix ++ (f.sha256 id ++ (codes "__" ++ f.sha256 (f.strip ref)))
  unfolding branch_graph_name project_branch_prefix
  branch_made id ref g h = elim (Bool-cases (is_empty (f.strip id))) [
    | inl e ↦ ground arith
    | inr e ↦ elim (Bool-cases (is_default_ref f ref)) [
      | inl d ↦ ground arith
      | inr d ↦
          let made : branch_graph_prefix ++ ((f.sha256 id ++ codes "__") ++ f.sha256 (f.strip ref))
              ≡ g =
            ground arith in
          sym made
          ∙ ap (λ t. branch_graph_prefix ++ t)
              (append_assoc (f.sha256 id) (codes "__") (f.sha256 (f.strip ref)))
    ]
  ]

  branch_reserved :
      (rest : Text) → starts_with reserved_graph_prefix (branch_graph_prefix ++ rest) ≡ true
  unfolding starts_with
  branch_reserved rest = refl

  branch_digests :
      (w : IsFunctions f) (id id' ref ref' g : Text)
      → branch_graph_name f id ref ≡ ok g
      → branch_graph_name f id' ref' ≡ ok g
      → (f.sha256 id ≡ f.sha256 id') × (f.sha256 (f.strip ref) ≡ f.sha256 (f.strip ref'))
  branch_digests w id id' ref ref' g h h' =
      let both = sym (branch_made id ref g h) ∙ branch_made id' ref' g h' in
      let rest = (append_cancel branch_graph_prefix branch_graph_prefix _ _ refl both).1 in
      let (ids, tails) =
        append_cancel (f.sha256 id) (f.sha256 id') _ _ (w.digits id ∙ sym (w.digits id')) rest in
      (ids, (append_cancel (codes "__") (codes "__") _ _ refl tails).1)

  -- What two scopes share that have the same graph: the normalised name if both refs are default ones, else the digests.
  pub record Shares (s s' : ProjectScope) (ref ref' : Text) : Type 0 where
    pub same :
        ((is_default_ref f ref ≡ true)
          × (is_default_ref f ref' ≡ true)
          × (f.lower (f.strip s.project_name) ≡ f.lower (f.strip s'.project_name)))
        ⊎ ((f.sha256 s.project_id ≡ f.sha256 s'.project_id)
            × (f.sha256 (f.strip ref) ≡ f.sha256 (f.strip ref')))

  graph_cases :
      (s : ProjectScope) (ref g : Text)
      → graph_of f s ref ≡ ok g
      → ((is_default_ref f ref ≡ true) × (graph_name f s ≡ ok g))
        ⊎ (branch_graph_name f s.project_id ref ≡ ok g)
  unfolding graph_of
  graph_cases s ref g h = elim (Bool-cases (is_default_ref f ref)) [
    | inl d ↦ inl (d, ground arith)
    | inr d ↦ inr (ground arith)
  ]

  apart :
      (s : ProjectScope) (id ref g : Text)
      → graph_name f s ≡ ok g
      → branch_graph_name f id ref ≡ ok g
      → ⊥
  unfolding graph_name
  apart s id ref g h h' =
      let free = (name_unreserved s.project_name g h).1 in
      let held =
        ap (starts_with reserved_graph_prefix) (branch_made id ref g h')
        ∙ branch_reserved (f.sha256 id ++ (codes "__" ++ f.sha256 (f.strip ref))) in
      cc (free, held)

  graph_of_shared :
      (w : IsFunctions f) (s s' : ProjectScope) (ref ref' g : Text)
      → graph_of f s ref ≡ ok g
      → graph_of f s' ref' ≡ ok g
      → Shares s s' ref ref'
  unfolding graph_name
  graph_of_shared w s s' ref ref' g h h' = elim (graph_cases s ref g h) [
    | inl (d, n) ↦ elim (graph_cases s' ref' g h') [
      | inl (d', n') ↦ record {
        same = inl (
          d,
          d',
          sym (name_unreserved s.project_name g n).0 ∙ (name_unreserved s'.project_name g n').0,
        );
      }
      | inr b' ↦ absurd (apart s s'.project_id ref' g n b')
    ]
    | inr b ↦ elim (graph_cases s' ref' g h') [
      | inl (d', n') ↦ absurd (apart s' s.project_id ref g n' b)
      | inr b' ↦ record { same = inr (branch_digests w s.project_id s'.project_id ref ref' g b b') }
    ]
  ]

  -- What an authorization has checked.
  record IsAuthorized (ctx : Context) (g : Text) : Type 0 where
    bound : ProjectScope
    usable_scope : require_project_scope f ctx ≡ ok bound
    graph : graph_of f bound ctx.ref ≡ ok g

  authorized :
      (name : Option Text) (ctx : Context) (g : Text)
      → authorized_graph_name f name ctx ≡ ok g
      → IsAuthorized ctx g
  unfolding authorized_graph_name
  authorized name ctx g h =
      let (bound, u, h₁) = >>=-eq-ok (require_project_scope f ctx) _ h in
      let (expected, e, h₂) = >>=-eq-ok (graph_of f bound ctx.ref) _ h₁ in
      record { bound = bound; usable_scope = u; graph = e ∙ ap ok (chosen expected h₂) }
    where
      chosen :
          (expected : Text)
          → (if text_eq (f.lower (f.strip (or_current name ctx.project_name))) expected
              then ok expected
              else http 403)
            ≡ ok g
          → expected ≡ g
      chosen expected q = ground arith

  usable_scope_of : (o : Option ProjectScope) (s : ProjectScope) → usable f o ≡ ok s → o ≡ some s
  usable_scope_of none s h = cc
  usable_scope_of (some x) s h =
      elim (Bool-cases (is_empty x.project_id || not (ltb 0 x.project_db_id))) [
        | inl bad ↦ ground arith
        | inr good ↦ elim (Result-cases (graph_name f x)) [
          | inl (name, e) ↦ ground arith
          | inr (inl (status, e)) ↦ ground arith
          | inr (inr e) ↦ ground arith
        ]
      ]

  -- When two requests are both authorized for one graph, whatever names they ask for, both are
  -- bound to scopes; and either both refs are default ones and the project names are the same as
  -- normalised, or the SHA-256 digests of the project IDs and of the refs are the same. Digests
  -- have 64 digits.
  pub authorized_isolated :
      (w : IsFunctions f) (name name' : Option Text) (ctx ctx' : Context) (g : Text)
      → authorized_graph_name f name ctx ≡ ok g
      → authorized_graph_name f name' ctx' ≡ ok g
      → (s : ProjectScope) × (s' : ProjectScope) × (ctx.scope ≡ some s)
        × (ctx'.scope ≡ some s')
        × Shares s s' ctx.ref ctx'.ref
  unfolding require_project_scope
  authorized_isolated w name name' ctx ctx' g h h' =
      let a = authorized name ctx g h in
      let b = authorized name' ctx' g h' in
      (
        a.bound,
        b.bound,
        usable_scope_of ctx.scope a.bound a.usable_scope,
        usable_scope_of ctx'.scope b.bound b.usable_scope,
        graph_of_shared w a.bound b.bound ctx.ref ctx'.ref g a.graph b.graph,
      )
