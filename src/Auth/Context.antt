-- ===== src/Auth/Context.antt =====
-- `auth/context.py`: graph names, project scopes and the context variables that bind them.
use cga.Prelude.{
  ℕ, Bool, true, false, ◌&&◌, ◌||◌, not, Option, none, some, List, [], ◌∷◌, ◌++◌, length, all, leb,
  ltb, ◌==◌, if◌then◌else◌,
}
use cga.Text.{starts_with, Text, codes, text_eq, has_text}
use cga.Http.{Result, ok, http, error, ◌>>=◌}

-- `str.strip`, `str.lower`, and the hex digest of the SHA-256 of a text's UTF-8.
pub record Functions : Type 0 where
  pub strip : Text → Text
  pub lower : Text → Text
  pub sha256 : Text → Text

abbrev pub reserved_graph_prefix : Text
reserved_graph_prefix = codes "__cga_"

abbrev pub branch_graph_prefix : Text
branch_graph_prefix = codes "__cga_ref_v2__"

abbrev pub default_refs : List Text
default_refs = [] ∷ codes "main" ∷ codes "master" ∷ codes "default" ∷ []

-- `[a-z0-9]`
abbrev pub is_first_char : ℕ → Bool
is_first_char c = (leb b'a' c && leb c b'z') || (leb b'0' c && leb c b'9')

-- `[a-z0-9._-]`
abbrev pub is_name_char : ℕ → Bool
is_name_char c = is_first_char c || ((c == b'.') || ((c == b'_') || (c == b'-')))

-- `re.fullmatch(r"[a-z0-9][a-z0-9._-]{0,63}", name)`
unfoldable pub is_graph_name : Text → Bool
is_graph_name [] = false
is_graph_name (c ∷ s) = is_first_char c && (leb (length s) 63 && all is_name_char s)

abbrev pub is_empty : Text → Bool
is_empty [] = true
is_empty (c ∷ s) = false

pub record ProjectScope : Type 0 where
  pub project_id : Text
  pub project_db_id : ℕ
  pub project_name : Text
  pub repo_path : Text

-- The context variables: the scope, the ref, the external and the database ID of the project, and its graph.
pub record Context : Type 0 where
  pub scope : Option ProjectScope
  pub ref : Text
  pub external_id : Text
  pub db_id : ℕ
  pub project_name : Text

-- `except ValueError as exc: raise HTTPException(status_code=403)`
abbrev pub or_403 : {A : Type 0} → A → Result Text → Result A
or_403 a (ok name) = ok a
or_403 a (http status) = http status
or_403 a error = http 403

-- `project_name or current`
abbrev pub or_current : Option Text → Text → Text
or_current none current = current
or_current (some []) current = current
or_current (some (c ∷ s)) current = c ∷ s

module _ (f : Functions) where
  unfoldable pub validate_project_graph_name : Text → Result Text
  unfolding starts_with is_graph_name
  validate_project_graph_name project_name =
      let name = f.lower (f.strip project_name) in
      if starts_with reserved_graph_prefix name
      then error
      else (if is_graph_name name then ok name else error)

  unfoldable pub is_default_ref : Text → Bool
  unfolding has_text
  is_default_ref ref_id = has_text default_refs (f.strip ref_id)

  unfoldable pub project_branch_prefix : Text → Result Text
  project_branch_prefix project_id =
      if is_empty (f.strip project_id)
      then error
      else ok (branch_graph_prefix ++ (f.sha256 project_id ++ codes "__"))

  unfoldable pub branch_graph_name : Text → Text → Result Text
  unfolding is_default_ref project_branch_prefix
  branch_graph_name project_id ref_id =
      if is_empty (f.strip project_id) || is_default_ref ref_id
      then error
      else (project_branch_prefix project_id >>= λ prefix. ok (prefix ++ f.sha256 (f.strip ref_id)))

  -- `ProjectScope.graph_name`
  unfoldable pub graph_name : ProjectScope → Result Text
  unfolding validate_project_graph_name
  graph_name scope = validate_project_graph_name scope.project_name

  abbrev pub usable : Option ProjectScope → Result ProjectScope
  usable none = http 403
  usable (some scope) =
      if is_empty scope.project_id || not (ltb 0 scope.project_db_id)
      then http 403
      else or_403 scope (graph_name scope)

  unfoldable pub require_project_scope : Context → Result ProjectScope
  unfolding graph_name
  require_project_scope ctx = usable ctx.scope

  -- The graph of a scope and a ref.
  unfoldable pub graph_of : ProjectScope → Text → Result Text
  unfolding is_default_ref graph_name branch_graph_name
  graph_of scope ref =
      if is_default_ref ref then graph_name scope else branch_graph_name scope.project_id ref

  unfoldable pub authorized_graph_name : Option Text → Context → Result Text
  unfolding require_project_scope graph_of
  authorized_graph_name project_name ctx = do
    scope ← require_project_scope ctx
    expected ← graph_of scope ctx.ref
    if text_eq (f.lower (f.strip (or_current project_name ctx.project_name))) expected
        then ok expected
        else http 403

  -- `with bind_project_scope(scope): body`. The variables are reset whatever the body raises.
  unfoldable pub bind_project_scope :
      {A : Type 0} → ProjectScope → (Context → Result A × Context) → Context → Result A × Context
  unfolding graph_name
  bind_project_scope scope body ctx = elim (graph_name scope) [
    | ok name ↦
        let (a, after) = body (record {
          scope = some scope;
          ref = [];
          external_id = scope.project_id;
          db_id = scope.project_db_id;
          project_name = name;
        }) in
        (
          a,
          record after {
            ref = ctx.ref;
            db_id = ctx.db_id;
            external_id = ctx.external_id;
            scope = ctx.scope;
            project_name = ctx.project_name;
          },
        )
    | http status ↦ (http status, ctx)
    | error ↦ (error, ctx)
  ]

  -- `with bind_project_ref(ref_id) as graph: body`
  unfoldable pub bind_project_ref :
      {A : Type 0} → Text → (Text → Context → Result A × Context) → Context → Result A × Context
  unfolding require_project_scope graph_of
  bind_project_ref ref_id body ctx =
      elim (require_project_scope ctx >>= λ scope. graph_of scope (f.strip ref_id)) [
        | ok name ↦
            let (a, after) = body name (record ctx { project_name = name; ref = f.strip ref_id }) in
            (a, record after { ref = ctx.ref; project_name = ctx.project_name })
        | http status ↦ (http status, ctx)
        | error ↦ (error, ctx)
      ]
