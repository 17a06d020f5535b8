-- ===== src/Schedules/Table.antt =====
-- `schedules/service.py`: the tables of tasks and runs. Instants are seconds.
pub mod Due
pub mod Picked
use cga.Prelude.{
  ℕ, zero, suc, ◌+◌, ◌*◌, min, max, Bool, true, false, ◌&&◌, ◌||◌, not, Option, none, some, List,
  [], ◌∷◌, ◌++◌, ◌==◌, length, leb, ltb, any, keep, map, take, sort_by, if◌then◌else◌,
}
use cga.Text.{Text, codes, text_eq}
use cga.Http.{Result, ok, http, error, ◌>>=◌, ◌>>◌}
use cga.Json.{Fields, end}
use cga.Schedules.Task.{
  TaskType, TaskCreate, TaskUpdate, check, is_blank, is_extension, validate, is_sent, has_changes,
  merge,
}

pub record Task : Type 0 where
  pub id : ℕ
  pub task_id : Text
  pub body : TaskCreate
  pub created_at : ℕ
  pub updated_at : ℕ
  pub next_run_at : ℕ
  pub last_run_at : Option ℕ
  pub last_run_status : Text
  pub last_run_error : Text

pub record Run : Type 0 where
  pub id : ℕ
  pub schedule_id : ℕ
  pub started_at : ℕ
  pub finished_at : ℕ
  pub status : Text
  pub status_code : Option ℕ
  pub duration_ms : ℕ
  pub error : Text
  pub response : Fields

pub record Table : Type 0 where
  pub tasks : List Task
  pub next_task : ℕ
  pub runs : List Run
  pub next_run : ℕ

-- `next_run_iso`
unfoldable pub next_run_at : ℕ → ℕ → ℕ
next_run_at cadence_minutes from = from + 60 * max 1 cadence_minutes

-- `create_unique_scheduled_task_id`: the first of the thirty random IDs that no task has.
abbrev has_task_id : Text → Task → Bool
has_task_id id t = text_eq t.task_id id

unfoldable pub unique_task_id : ℕ → (ℕ → Text) → List Task → Result Text
unique_task_id zero candidate tasks = error
unique_task_id (suc n) candidate tasks =
    let rest = unique_task_id n candidate tasks in
    if any (has_task_id (candidate n)) tasks then rest else ok (candidate n)

-- `SELECT ... WHERE st.id = ?`
unfoldable pub find_task : ℕ → List Task → Option Task
find_task id [] = none
find_task id (t ∷ ts) = if t.id == id then some t else find_task id ts

abbrev found : Option Task → Result Task
found none = error
found (some t) = ok t

abbrev pub new_task : ℕ → Text → TaskCreate → ℕ → Task
new_task id task_id body now = record {
  id = id;
  task_id = task_id;
  body = body;
  created_at = now;
  updated_at = now;
  next_run_at = next_run_at body.cadence_minutes now;
  last_run_at = none;
  last_run_status = [];
  last_run_error = [];
}

-- `create_scheduled_task` for a body that the model let through.
unfoldable pub create_scheduled_task : (ℕ → Text) → TaskCreate → ℕ → Table → Result Task × Table
unfolding unique_task_id find_task next_run_at
create_scheduled_task candidate body now t = elim (unique_task_id 30 candidate t.tasks) [
  | ok task_id ↦
      let tasks = t.tasks ++ new_task t.next_task task_id body now ∷ [] in
      (found (find_task t.next_task tasks), record t { tasks = tasks; next_task = suc t.next_task })
  | http s ↦ (http s, t)
  | error ↦ (error, t)
]

-- The UPDATE of the row with an ID.
unfoldable pub change_task : ℕ → (Task → Task) → List Task → List Task
change_task id f [] = []
change_task id f (t ∷ ts) = (if t.id == id then f t else t) ∷ change_task id f ts

-- `recompute_next`
abbrev pub next_after : TaskUpdate → TaskCreate → ℕ → ℕ → ℕ
next_after u body now current =
    if (is_sent u.cadence_minutes || is_sent u.enabled) && body.enabled
    then next_run_at body.cadence_minutes now
    else current

abbrev rewrite_task : TaskUpdate → TaskCreate → ℕ → Task → Task → Task
rewrite_task u body now current t = record t {
  body = body;
  updated_at = now;
  next_run_at = next_after u body now current.next_run_at;
}

abbrev update_found : (Text → Text) → TaskUpdate → ℕ → Table → Task → Result Task × Table
update_found strip u now t current =
    if has_changes u
    then elim (merge u current.body >>= validate strip) [
      | ok body ↦
          let tasks = change_task current.id (rewrite_task u body now current) t.tasks in
          (found (find_task current.id tasks), record t { tasks = tasks })
      | http s ↦ (http s, t)
      | error ↦ (error, t)
    ]
    else (ok current, t)

-- `update_scheduled_task`
unfoldable pub update_scheduled_task :
    (Text → Text) → ℕ → TaskUpdate → ℕ → Table → Result Task × Table
unfolding find_task change_task has_changes merge validate next_run_at
update_scheduled_task strip task_id u now t = elim (find_task task_id t.tasks) [
  | none ↦ (error, t)
  | some current ↦ update_found strip u now t current
]

-- `delete_scheduled_task`
unfoldable pub delete_scheduled_task : ℕ → Table → Table
delete_scheduled_task task_id t = record t { tasks = keep (λ x. not (x.id == task_id)) t.tasks }

-- `WHERE st.enabled = 1 AND st.next_run_at <= ? ORDER BY st.next_run_at ASC, st.id ASC LIMIT ?`
unfoldable pub is_due : ℕ → Task → Bool
is_due now t = t.body.enabled && leb t.next_run_at now

abbrev pub earlier : Task → Task → Bool
earlier a b = ltb a.next_run_at b.next_run_at || ((a.next_run_at == b.next_run_at) && leb a.id b.id)

unfoldable pub get_due_scheduled_tasks : ℕ → ℕ → Table → List Task
unfolding is_due
get_due_scheduled_tasks now limit t =
    take (max 1 (min limit 50)) (sort_by earlier (keep (is_due now) t.tasks))

-- What a request or an extension came to.
pub record Came : Type 0 where
  pub status : Text
  pub status_code : Option ℕ
  pub duration_ms : ℕ
  pub error : Text
  pub response : Fields
  pub started_at : ℕ
  pub finished_at : ℕ

abbrev pub run_row : ℕ → Task → Came → Run
run_row id task c = record {
  id = id;
  schedule_id = task.id;
  started_at = c.started_at;
  finished_at = c.finished_at;
  status = c.status;
  status_code = c.status_code;
  duration_ms = c.duration_ms;
  error = take 1000 c.error;
  response = c.response;
}

abbrev pub after_run : Task → Came → Task → Task
after_run task c t = record t {
  last_run_at = some c.finished_at;
  last_run_status = c.status;
  last_run_error = take 1000 c.error;
  next_run_at = next_run_at task.body.cadence_minutes c.finished_at;
  updated_at = c.finished_at;
}

-- `record_scheduled_task_run`
unfoldable pub record_run : Task → Came → Table → Run × Table
unfolding change_task next_run_at
record_run task c t = (
  run_row t.next_run task c,
  record t {
    runs = t.runs ++ run_row t.next_run task c ∷ [];
    next_run = suc t.next_run;
    tasks = change_task task.id (after_run task c) t.tasks;
  },
)

-- `list_recent_scheduled_task_runs`: the newest first.
abbrev pub newer_run : Run → Run → Bool
newer_run a b = ltb b.started_at a.started_at || ((a.started_at == b.started_at) && leb b.id a.id)

unfoldable pub list_recent_runs : ℕ → Table → List Run
list_recent_runs limit t = take (max 1 (min limit 200)) (sort_by newer_run t.runs)

-- A task with neither a URL nor an extension fails before anything is sent.
abbrev pub no_target : ℕ → Came
no_target now = record {
  status = codes "failed";
  status_code = none;
  duration_ms = 0;
  error = codes "target_url is required";
  response = end;
  started_at = now;
  finished_at = now;
}

module _ (perform : Task → Came) where
  -- `execute_scheduled_task`: `perform` is the request or the extension, whose exceptions are a `Came` too.
  unfoldable pub execute_scheduled_task : ℕ → Task → Table → Run × Table
  unfolding record_run
  execute_scheduled_task now task t =
      if not (is_extension task.body.task_type) && is_blank task.body.target_url
      then record_run task (no_target now) t
      else record_run task (perform task) t

  unfoldable pub execute_all : ℕ → List Task → Table → Table
  unfolding execute_scheduled_task
  execute_all now [] t = t
  execute_all now (task ∷ tasks) t = execute_all now tasks (execute_scheduled_task now task t).1

  -- `ScheduledTaskWorker.run_due_once`
  unfoldable pub run_due_once : ℕ → ℕ → Table → ℕ × Table
  unfolding get_due_scheduled_tasks execute_all
  run_due_once now batch_size t =
      let due = get_due_scheduled_tasks now (max 1 batch_size) t in
      (length due, execute_all now due t)
