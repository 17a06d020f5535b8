-- ===== src/Schedules/Execute/Finished.antt =====
-- A task ends when its world says.
use cga.Prelude.{
  ℕ, ◌≡◌, refl, Bool, true, false, Option, none, some, List, [], ◌∷◌, length, ltb, if◌then◌else◌,
}
use cga.Text.{Text, codes, text_eq}
use cga.Json.{Fields, get, given_text}
use cga.Schedules.Task.{
  TaskType, agent_activation, browseragent_task, http_request, extension_task, is_blank,
}
use cga.Schedules.Table.{Task, Came}
use cga.Schedules.Browser.{
  Python, Try, done, raised, Command, browser_task_spec, build_page_test, build_request_payload,
}
use cga.Schedules.Workflow.{Run, no_run, run_commands}
use cga.Schedules.Execute.{
  Answer, broken, response, Extension, crashed, ran, World, after_workflow, run_test, execute_test,
  with_results, after_post, post_payload, execute_post, extension_came, execute_extension,
  execute_browser, execute_as, perform,
}

module _ (f : Python) (w : World) where
  abbrev Ends : Came → Type 0
  Ends c = c.finished_at ≡ w.finished_at

  either : (b : Bool) (c d : Came) → Ends c → Ends d → Ends (if b then c else d)
  either true c d h k = h
  either false c d h k = k

  with_results-Ends :
      (status : ℕ) (payload : Fields) (verdict : Text × Text) (items : List (Text × Text))
      → Ends (with_results f w status payload verdict items)
  with_results-Ends status payload verdict [] = refl
  with_results-Ends status payload verdict (item ∷ items) = refl

  after_post-Ends : (type : TaskType) (answer : Answer) → Ends (after_post f w type answer)
  after_post-Ends agent_activation (broken text) = refl
  after_post-Ends browseragent_task (broken text) = refl
  after_post-Ends http_request (broken text) = refl
  after_post-Ends extension_task (broken text) = refl
  after_post-Ends agent_activation (response status body text) = refl
  after_post-Ends http_request (response status body text) = refl
  after_post-Ends extension_task (response status body text) = refl
  after_post-Ends browseragent_task (response status body text) =
      either (ltb status 400) _ _ (with_results-Ends status _ (codes "success", []) _) refl

  post_payload-Ends : (task : Task) (payload : Try Fields) → Ends (post_payload f w task payload)
  post_payload-Ends task (raised text) = refl
  post_payload-Ends task (done payload) = after_post-Ends task.body.task_type w.answer

  execute_post-Ends : (task : Task) → Ends (execute_post f w task)
  unfolding execute_post
  execute_post-Ends task = post_payload-Ends task (build_request_payload f w.clock task w.run_id)

  after_workflow-Ends : (n : ℕ) (r : Try Run) → Ends (after_workflow w n r)
  after_workflow-Ends n (raised text) = refl
  after_workflow-Ends n (done r) = refl

  run_test-Ends : (m : Try (List Command)) → Ends (run_test f w m)
  run_test-Ends (raised text) = refl
  run_test-Ends (done commands) =
      after_workflow-Ends (length commands) (run_commands f w.commands 0 commands no_run)

  execute_test-Ends : (task : Task) (spec : Fields) → Ends (execute_test f w task spec)
  unfolding execute_test
  execute_test-Ends task spec = run_test-Ends (build_page_test f w.clock task spec w.run_id)

  extension_came-Ends : (id : Text) (e : Extension) → Ends (extension_came f w id e)
  extension_came-Ends id (crashed text) = refl
  extension_came-Ends id (ran status fields) =
      either (text_eq status (codes "success")) _ _ refl refl

  execute_extension-Ends : (task : Task) → Ends (execute_extension f w task)
  unfolding execute_extension
  execute_extension-Ends task =
      let id = f.strip (given_text f.shown (get task.body.payload "extension_id")) in
      either (is_blank id) _ _ refl (extension_came-Ends id w.extension)

  execute_browser-Ends : (task : Task) (spec : Option Fields) → Ends (execute_browser f w task spec)
  execute_browser-Ends task none = execute_post-Ends task
  execute_browser-Ends task (some spec) = execute_test-Ends task spec

  execute_as-Ends : (task : Task) (type : TaskType) → Ends (execute_as f w task type)
  execute_as-Ends task extension_task = execute_extension-Ends task
  execute_as-Ends task browseragent_task =
      execute_browser-Ends task (browser_task_spec task.body.payload)
  execute_as-Ends task agent_activation = execute_post-Ends task
  execute_as-Ends task http_request = execute_post-Ends task

  -- What a task comes to is finished at the instant that its world has.
  pub perform_ends : (task : Task) → (perform f w task).finished_at ≡ w.finished_at
  unfolding perform
  perform_ends task = execute_as-Ends task task.body.task_type
