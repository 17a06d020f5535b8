-- ===== src/Auth/Binding.antt =====
-- A binding of a project lasts for its body, and gives its body the graph of the project.
use cga.Prelude.{◌≡◌, refl, inl, inr, true, false, none, [], ltb}
use cga.Text.{Text, text_eq, text_eq_refl, has_text}
use cga.Http.{Result, ok, error, Result-cases}
use cga.Auth.Context.{
  Functions, is_empty, ProjectScope, Context, is_default_ref, graph_name, require_project_scope,
  graph_of, authorized_graph_name, bind_project_scope,
}

-- After the body, whatever it did to the context variables and whatever it returned or raised, the variables are what
-- they were before; and if the scope's name is no graph name, the body does not run and the error is raised.
pub bind_project_scope_lem :
    (f : Functions) (scope : ProjectScope) (body : Context → Result Text × Context) (ctx : Context)
    → ((bind_project_scope f scope body ctx).1 ≡ ctx)
      × (graph_name f scope ≡ error → bind_project_scope f scope body ctx ≡ (error, ctx))
unfolding bind_project_scope
bind_project_scope_lem f scope body ctx = elim (Result-cases (graph_name f scope)) [
  | inl (name, e) ↦ rw (bind_project_scope, e) (refl, λ h. cc)
  | inr (inl (status, e)) ↦ rw (bind_project_scope, e) (refl, λ h. cc)
  | inr (inr e) ↦ rw (bind_project_scope, e) (refl, λ h. refl)
]

-- What a bound scope authorizes when no name is asked for: its own graph, if the scope has an ID and a positive database
-- ID, `strip` and `lower` leave the graph's name as it is, and `strip` leaves the empty text.
pub bind_authorizes :
    (f : Functions) (scope : ProjectScope) (ctx : Context) (name : Text)
    → f.strip [] ≡ []
    → f.lower (f.strip name) ≡ name
    → is_empty scope.project_id ≡ false
    → ltb 0 scope.project_db_id ≡ true
    → graph_name f scope ≡ ok name
    → bind_project_scope f scope (λ c. (authorized_graph_name f none c, c)) ctx ≡ (ok name, ctx)
unfolding bind_project_scope authorized_graph_name require_project_scope graph_of is_default_ref
    has_text
bind_authorizes f scope ctx name blank plain id db h =
    rw
      (
        bind_project_scope, h, authorized_graph_name, require_project_scope, id, db, h, graph_of,
        is_default_ref, blank,
      )
      (unfold text_eq in rw (h, plain, text_eq_refl name) refl)
