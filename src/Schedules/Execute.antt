-- ===== src/Schedules/Execute.antt =====
-- `schedules/service.py`: `execute_scheduled_task`, with the responses that it gets as a `World`.
pub mod Trusted
pub mod Finished
use cga.Prelude.{
  ℕ, zero, suc, ◌+◌, Bool, true, false, not, ◌&&◌, ◌||◌, Option, none, some, List, [], ◌∷◌, ◌++◌,
  ◌==◌, length, take, map, leb, ltb, sort_by, if◌then◌else◌,
}
use cga.Text.{Text, codes, text_eq, text_leb}
use cga.Json.{
  Json, null, bool, int, str, arr, obj, Fields, end, field, get, items_of, truthy, or_else,
  given_text, set_field,
}
use cga.Schedules.Task.{
  TaskType, agent_activation, browseragent_task, http_request, extension_task, is_blank,
}
use cga.Schedules.Table.{Task, Came, no_target}
use cga.Schedules.Compact.{compact}
use cga.Schedules.Browser.{
  Python, Try, done, raised, ◌>>=◌, Command, items_json, number_or_null, browser_task_spec,
  build_page_test, build_request_payload,
}
use cga.Schedules.Workflow.{
  Body, empty, json, unreadable, Reply, unreachable, answered, Attempt, Outcome, payload_of,
  compacted, is_not_false, Run, no_run, run_commands, failures,
}
use cga.Schedules.Collect.{
  queued_item, id_given, queued_of, queued_all, queued_in, queued_items, put_item, by_id, Collected,
  dict_or, collected, collect_one, collect_round, collect, ids, Summary, outcome_json, summary_json,
  comma_join, collected_summary,
}

-- What the POST of a request comes to: an exception, or a status with the body and its text.
pub data Answer : Type 0 where
  broken : Text → Answer
  response : ℕ → Body → Text → Answer

-- What `run_project_extension` comes to: an exception, or a run with its status.
pub data Extension : Type 0 where
  crashed : Text → Extension
  ran : Text → Fields → Extension

-- What a task meets when it runs. `commands` has the attempts at the commands of a browser test, `rounds` the replies to
-- each round of requests for results.
pub record World : Type 0 where
  pub clock : Text
  pub run_id : Text
  pub started_at : ℕ
  pub finished_at : ℕ
  pub duration_ms : ℕ
  pub answer : Answer
  pub commands : ℕ → ℕ → Attempt
  pub rounds : List (Text → Reply)
  pub extension : Extension

-- The status and the error that the results of the commands leave.
abbrev pub or_message : Text → Text
or_message [] = codes "One or more BrowserAgent commands failed"
or_message (c ∷ s) = c ∷ s

abbrev pub judged_results : List Outcome → Text × Text → Text × Text
judged_results [] (status, error) = (status, error)
judged_results (o ∷ os) (status, error) = (codes "failed", or_message o.error)

abbrev pub judged_pending : List Text → List Outcome → Text × Text → Text × Text
judged_pending [] os verdict = judged_results os verdict
judged_pending (id ∷ ids) os verdict = (
  codes "failed",
  codes "Timed out waiting for BrowserAgent results: " ++ comma_join (take 5 (id ∷ ids)),
)

unfoldable pub judge_summary : Summary → Text × Text → Text × Text
unfolding failures comma_join
judge_summary s verdict = judged_pending s.pending_ids (failures s.results) verdict

abbrev pub came : World → Text × Text → Option ℕ → Fields → Came
came w (status, error) status_code fields = record {
  status = status;
  status_code = status_code;
  duration_ms = w.duration_ms;
  error = error;
  response = fields;
  started_at = w.started_at;
  finished_at = w.finished_at;
}

abbrev is_ok_status : Option ℕ → Bool
is_ok_status none = false
is_ok_status (some status) = ltb status 400

abbrev pub verdict_of : Option ℕ → Text → Text × Text
verdict_of status text =
    if is_ok_status status then (codes "success", []) else (codes "failed", text)

abbrev pair_json : Text × Text → Json
pair_json (id, action) = obj (field "id" (str id) (field "action" (str action) end))

abbrev attempts_json : Outcome → Fields → Fields
attempts_json o rest = field "attempts" (int o.attempts) rest

-- The summary of `_execute_browseragent_workflow`, and its JSON.
abbrev pub workflow_summary : ℕ → Run → Summary
workflow_summary expected r = record {
  mode = field "execution_mode" (str (codes "sequential")) end;
  expected = expected;
  pending_ids = [];
  results = r.results;
}

abbrev pub workflow_fields : Summary → Run → Fields
workflow_fields s r = field "queued" (bool true) (
    field "count" (int (length r.items)) (
      field "items" (arr (items_json (map pair_json r.items))) (
        field "status_code" (number_or_null r.status_code)
          (field "browseragent" (summary_json attempts_json s) end))))

abbrev pub after_workflow : World → ℕ → Try Run → Came
after_workflow w expected (raised text) = came w (codes "failed", text) none end
after_workflow w expected (done r) =
    let s = workflow_summary expected r in
    came w (judge_summary s (verdict_of r.status_code (codes "BrowserAgent command failed")))
      r.status_code (workflow_fields s r)

module _ (f : Python) (w : World) where
  abbrev pub run_test : Try (List Command) → Came
  run_test (raised text) = came w (codes "failed", text) none end
  run_test (done commands) =
      after_workflow w (length commands) (run_commands f w.commands 0 commands no_run)

  -- A browser test.
  unfoldable pub execute_test : Task → Fields → Came
  unfolding build_page_test run_commands judge_summary
  execute_test task spec = run_test (build_page_test f w.clock task spec w.run_id)

  -- `response_payload` of a POST.
  abbrev body_dict : Json → Fields
  body_dict (obj fs) = fs
  body_dict v = field "body" v end

  abbrev response_dict : Body → Fields
  response_dict empty = end
  response_dict (json v) = body_dict v
  response_dict (unreadable text) = field "body" (str (take 2000 text)) end

  abbrev no_more : Outcome → Fields → Fields
  no_more o rest = rest

  -- The results of the commands that a POST queued.
  abbrev pub with_results : ℕ → Fields → Text × Text → List (Text × Text) → Came
  with_results status payload verdict [] = came w verdict (some status) payload
  with_results status payload verdict (item ∷ items) =
      let c = collect f w.rounds (record { pending = by_id (item ∷ items) []; results = [] }) in
      let s = collected_summary (length (item ∷ items)) c in
      came w (judge_summary s verdict) (some status)
        (set_field "browseragent" (summary_json no_more s) payload)

  abbrev pub after_post : TaskType → Answer → Came
  after_post type (broken text) = came w (codes "failed", text) none end
  after_post browseragent_task (response status body text) =
      let payload = response_dict body in
      if ltb status 400
      then with_results status payload (codes "success", []) (queued_items f payload)
      else came w (codes "failed", take 1000 text) (some status) payload
  after_post type (response status body text) =
      came w (verdict_of (some status) (take 1000 text)) (some status) (response_dict body)

  abbrev pub post_payload : Task → Try Fields → Came
  post_payload task (raised text) = came w (codes "failed", text) none end
  post_payload task (done payload) = after_post task.body.task_type w.answer

  unfoldable pub execute_post : Task → Came
  unfolding build_request_payload collect queued_items by_id judge_summary set_field
  execute_post task = post_payload task (build_request_payload f w.clock task w.run_id)

  -- `_execute_extension_task`
  abbrev pub extension_came : Text → Extension → Came
  extension_came id (crashed text) =
      came w (codes "failed", text) (some 500) (field "extension_id" (str id) end)
  extension_came id (ran status fields) =
      if text_eq status (codes "success")
      then came w (codes "success", []) (some 200) fields
      else came w (codes "failed", codes "Extension task failed") (some 500) fields

  unfoldable pub execute_extension : Task → Came
  unfolding given_text text_eq
  execute_extension task =
      let id = f.strip (given_text f.shown (get task.body.payload "extension_id")) in
      if is_blank id
      then record (came w (codes "failed", codes "extension_id is required for extension tasks")
          (some 400) end) { duration_ms = 0 }
      else extension_came id w.extension

  abbrev pub execute_browser : Task → Option Fields → Came
  execute_browser task none = execute_post task
  execute_browser task (some spec) = execute_test task spec

  abbrev pub execute_as : Task → TaskType → Came
  execute_as task extension_task = execute_extension task
  execute_as task browseragent_task = execute_browser task (browser_task_spec task.body.payload)
  execute_as task agent_activation = execute_post task
  execute_as task http_request = execute_post task

  -- What a task comes to that has a target.
  unfoldable pub perform : Task → Came
  unfolding execute_extension execute_test execute_post browser_task_spec
  perform task = execute_as task task.body.task_type
