-- ===== src/Tests/Schedules.antt =====
-- One enabled task that is due, and one that is not.
use cga.Prelude.{
  ℕ, String, ap, ◌∙◌, ◌+◌, ◌<◌, ◌≤◌, ◌&&◌, ◌++◌, leb, map, ◌≡◌, refl, Bool, true, false, none, List,
  [], ◌∷◌, arith, length, max, min, any, keep, All,
}
use cga.Text.{Text, codes, starts_with, lower_char}
use mathlib.Core.List.{map-append}
use Prim.Native.Char.{code}
use Prim.Native.String.{◌++◌ as str_append}
use text.Mathlib.TextLemmas.{nil-append, cons-append}
use cga.Json.{Json, null, int, arr, cons, nil, str, obj, Fields, end, field}
use cga.Schedules.Task.{http_request, TaskCreate}
use cga.Schedules.Table.{Task, Table, new_task, get_due_scheduled_tasks, Came, run_due_once}
use cga.Schedules.Table.Due.{still_due, has_id, shown_run, came_to, run_due_once_lem}
use cga.Schedules.Table.Picked.{IsReady, InTurn, get_due_scheduled_tasks_lem}
use cga.Schedules.Compact.{compact}
use cga.Schedules.Browser.{Python, Try, done, Command, build_page_test}
use cga.Schedules.Workflow.{Attempt, answered, unreachable, json, empty, Run, no_run, run_commands}
use cga.Schedules.Execute.{World, response, crashed, perform, execute_test}
use cga.Schedules.Execute.Finished.{perform_ends}
use cga.Schedules.Execute.Trusted.{AreTrusted, execute_test_lem}
use cga.Schedules.Compact.Masked.{IsLower, hides, hides-compact}

abbrev ping : TaskCreate
ping = record {
  name = codes "ping";
  description = [];
  task_type = http_request;
  project_id = none;
  agent_id = [];
  target_url = codes "http://localhost";
  payload = end;
  cadence_minutes = 5;
  timeout_seconds = 30;
  enabled = true;
}

abbrev two_tasks : Table
two_tasks = record {
  tasks = new_task 1 (codes "aaaaaaaa") ping 0 ∷ new_task 2 (codes "bbbbbbbb") ping 1000 ∷ [];
  next_task = 3;
  runs = [];
  next_run = 1;
}

abbrev count_below_one : Json → Try Bool
count_below_one (int ℕ.zero) = done true
count_below_one _ = done false

abbrev python : Python
python = record {
  strip = λ t. t;
  lower = λ t. t;
  splitlines = λ t. t ∷ [];
  is_alnum = λ c. true;
  shown = λ v. [];
  below_one = count_below_one;
  external_id = λ id. null;
}

-- Every request is answered with 200 at the instant 400, and every command is found to have counted one.
abbrev posted_ok : ℕ → ℕ → Attempt
posted_ok n attempt = record {
  late = false;
  posted = answered 200 [];
  polls =
      unreachable
      ∷ answered 200 (json (obj (field "data" (obj (field "count" (int 1) end)) end)))
      ∷ [];
}

abbrev world : World
world = record {
  clock = codes "1";
  run_id = codes "r1";
  started_at = 400;
  finished_at = 400;
  duration_ms = 3;
  answer = response 200 empty [];
  commands = posted_ok;
  rounds = [];
  extension = crashed [];
}

abbrev perform_ok : Task → Came
perform_ok = perform python world

perform_later : (task : Task) → 400 ≤ (perform_ok task).finished_at
perform_later task = omega (arith, perform_ends python world task)

run_due_once_lem_example :
    let due = get_due_scheduled_tasks 400 (max 1 10) two_tasks in
    let (count, t') = run_due_once perform_ok 400 10 two_tasks in
    ((id : ℕ) → any (has_id id) due ≡ true → any (still_due 400 id) t'.tasks ≡ false)
    × (map shown_run t'.runs ≡ map shown_run two_tasks.runs ++ map (came_to perform_ok) due)
    × (length t'.runs ≡ count + length two_tasks.runs)
run_due_once_lem_example = run_due_once_lem perform_ok 400 perform_later 10 two_tasks

get_due_scheduled_tasks_lem_example :
    let tasks = get_due_scheduled_tasks 400 10 two_tasks in
    All (IsReady 400) tasks
    × InTurn tasks
    × (length tasks ≤ max 1 (min 10 50))
    × ((p : Task → Bool) → any p tasks ≡ true → any p two_tasks.tasks ≡ true)
    × (length tasks < max 1 (min 10 50)
        → (p : Task → Bool)
        → any (λ x. (x.body.enabled && leb x.next_run_at 400) && p x) two_tasks.tasks ≡ any p tasks)
get_due_scheduled_tasks_lem_example = get_due_scheduled_tasks_lem 400 10 two_tasks

abbrev login_response : Json
login_response =
    obj (field "accessToken" (str (codes "s3cr3t")) (field "user" (str (codes "ann")) end))

abbrev lower : Text → Text
lower t = map lower_char t

codes-append : (s t : String) → codes (str_append s t) ≡ codes s ++ codes t
codes-append String.[] t = ap codes (nil-append t)
codes-append (String.◌∷◌ c s) t =
    ap codes (cons-append c s t) ∙ ap (λ cs. code c ∷ cs) (codes-append s t)

lower-IsLower : IsLower lower
lower-IsLower = record {
  length_key =
      λ k h. ap lower (codes-append k "Length") ∙ map-append lower_char (codes k) (codes "Length");
  count_key = refl;
}

hides-compact_example : hides lower (compact lower (λ v. 0) 0 login_response) ≡ true
hides-compact_example = hides-compact lower (λ v. 0) lower-IsLower 0 login_response

-- A test of a page with one assertion.
abbrev page_spec : Fields
page_spec =
    field "url" (str (codes "http://localhost"))
      (field "assertions" (arr (cons (str (codes "hi")) nil)) (field "artifacts" (obj end) end))

abbrev page_test : Task
page_test = new_task 3 (codes "cccccccc") ping 0

page_succeeds : (execute_test python world page_test page_spec).status ≡ codes "success"
unfolding execute_test starts_with keep
page_succeeds = refl

execute_test_lem_example :
    (commands : List Command) × (r : Run) × (build_page_test python world.clock page_test page_spec
        world.run_id
      ≡ done commands)
    × (run_commands python world.commands 0 commands no_run ≡ done r)
    × AreTrusted python world.commands 0 r.results
    × (length r.results ≡ length commands)
execute_test_lem_example = execute_test_lem python world page_test page_spec page_succeeds
