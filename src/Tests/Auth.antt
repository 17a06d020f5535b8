-- ===== src/Tests/Auth.antt =====
-- Two requests of one project, on a branch, and the binding of its default graph.
use cga.Prelude.{ℕ, zero, suc, ◌≡◌, refl, none, some, [], ◌∷◌, ◌++◌, all}
use cga.Text.{starts_with, Text, codes, text_eq, has_text}
use cga.Http.{Result, ok, http, error}
use cga.Auth.Context.{
  Functions, is_graph_name, ProjectScope, Context, validate_project_graph_name, is_default_ref,
  project_branch_prefix, branch_graph_name, graph_name, require_project_scope, graph_of,
  authorized_graph_name, bind_project_scope, branch_graph_prefix,
}
use cga.Auth.Isolation.{IsFunctions, Shares, authorized_isolated}
use cga.Auth.Binding.{bind_project_scope_lem, bind_authorizes}

abbrev sixty_four : ℕ → Text
sixty_four zero = []
sixty_four (suc n) = b'a' ∷ sixty_four n

abbrev functions : Functions
functions = record { strip = λ t. t; lower = λ t. t; sha256 = λ t. sixty_four 64 }

functions-IsFunctions : IsFunctions functions
functions-IsFunctions = record { digits = λ t. refl; empty = refl }

abbrev scope : ProjectScope
scope = record {
  project_id = codes "p1";
  project_db_id = 1;
  project_name = codes "cga";
  repo_path = codes "/repos/cga";
}

abbrev branch_graph : Text
branch_graph = branch_graph_prefix ++ (sixty_four 64 ++ (codes "__" ++ sixty_four 64))

abbrev on_branch : Context
on_branch = record {
  scope = some scope;
  ref = codes "dev";
  external_id = codes "p1";
  db_id = 1;
  project_name = branch_graph;
}

opened : Unit {0}
unfolding starts_with is_graph_name validate_project_graph_name is_default_ref project_branch_prefix
    branch_graph_name graph_name require_project_scope graph_of authorized_graph_name all text_eq
    has_text
opened = tt

branch_ok : authorized_graph_name functions none on_branch ≡ ok branch_graph
unfolding opened
branch_ok = refl

name_ok : graph_name functions scope ≡ ok (codes "cga")
unfolding opened
name_ok = refl

authorized_isolated_example :
    (s : ProjectScope) × (s' : ProjectScope) × (on_branch.scope ≡ some s)
    × (on_branch.scope ≡ some s')
    × Shares functions s s' on_branch.ref on_branch.ref
authorized_isolated_example =
    authorized_isolated functions functions-IsFunctions none none on_branch on_branch branch_graph
      branch_ok branch_ok

-- A body that raises and leaves another ref behind.
abbrev spoil : Context → Result Text × Context
spoil c = (http 500, record c { ref = codes "other" })

bind_project_scope_lem_example :
    ((bind_project_scope functions scope spoil on_branch).1 ≡ on_branch)
    × (graph_name functions scope ≡ error
        → bind_project_scope functions scope spoil on_branch ≡ (error, on_branch))
bind_project_scope_lem_example = bind_project_scope_lem functions scope spoil on_branch

bind_authorizes_example :
    bind_project_scope functions scope (λ c. (authorized_graph_name functions none c, c)) on_branch
    ≡ (ok (codes "cga"), on_branch)
bind_authorizes_example =
    bind_authorizes functions scope on_branch (codes "cga") refl refl refl refl name_ok
