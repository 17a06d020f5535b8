-- ===== src/Schedules/Table/Due.antt =====
-- `run_due_once`: a round over the tasks that are due.
use cga.Prelude.{
  ℕ, suc, ◌+◌, ◌≤◌, ◌≡◌, refl, sym, ap, ◌∙◌, inl, inr, max, Bool, true, false, ◌&&◌, not, List, [],
  ◌∷◌, ◌++◌, ◌==◌, map, length, length-append, any, leb, ==-eq, arith, Bool-cases, if◌then◌else◌,
}
use cga.Text.{Text, codes}
use mathlib.Core.List.{append-nil, append_assoc, map-append}
use cga.Schedules.Task.{is_blank, is_extension}
use cga.Schedules.Table.{
  Task, Run, Table, next_run_at, change_task, get_due_scheduled_tasks, Came, run_row, after_run,
  record_run, no_target, execute_scheduled_task, execute_all, run_due_once,
}

-- Whether a task with this ID is enabled and its time has come.
abbrev pub still_due : ℕ → ℕ → Task → Bool
still_due now id x = (x.id == id) && (x.body.enabled && leb x.next_run_at now)

-- The task of a recorded run and its status.
abbrev pub shown_run : Run → ℕ × Text
shown_run r = (r.schedule_id, r.status)

-- What a round records for a task: a failure without a target, and otherwise what the request came to.
abbrev pub came_to : (Task → Came) → Task → ℕ × Text
came_to perform task = (
  task.id,
  if not (is_extension task.body.task_type) && is_blank task.body.target_url
      then codes "failed"
      else (perform task).status,
)

length-map : {A B : Type 0} (f : A → B) (xs : List A) → length (map f xs) ≡ length xs
length-map f [] = refl
length-map f (x ∷ xs) = ap suc (length-map f xs)

abbrev pub has_id : ℕ → Task → Bool
has_id id x = x.id == id

module _ (now : ℕ) (task : Task) (c : Came) (later : now ≤ c.finished_at) where
  rested : (x : Task) → (x.body.enabled && leb (after_run task c x).next_run_at now) ≡ false
  unfolding next_run_at
  rested x = ground arith

  change_keeps :
      (id : ℕ) (xs : List Task)
      → any (still_due now id) xs ≡ false
      → any (still_due now id) (change_task task.id (after_run task c) xs) ≡ false
  unfolding any change_task
  change_keeps id [] h = h
  change_keeps id (x ∷ xs) h = ground (arith, change_keeps id xs, rested x)

  change_rests :
      (xs : List Task)
      → any (still_due now task.id) (change_task task.id (after_run task c) xs) ≡ false
  unfolding any change_task
  change_rests [] = refl
  change_rests (x ∷ xs) = ground (arith, change_rests xs, rested x)

module _ (perform : Task → Came) (now : ℕ)
    (later : (task : Task) → now ≤ (perform task).finished_at) where
  execute_keeps :
      (task : Task) (t : Table) (id : ℕ)
      → any (still_due now id) t.tasks ≡ false
      → any (still_due now id) (execute_scheduled_task perform now task t).1.tasks ≡ false
  unfolding execute_scheduled_task record_run
  execute_keeps task t id h =
      elim (Bool-cases (not (is_extension task.body.task_type) && is_blank task.body.target_url)) [
        | inl e ↦
            rw (execute_scheduled_task, e)
              (change_keeps now task (no_target now) (omega arith) id t.tasks h)
        | inr e ↦
            rw (execute_scheduled_task, e)
              (change_keeps now task (perform task) (later task) id t.tasks h)
      ]

  execute_rests :
      (task : Task) (t : Table)
      → any (still_due now task.id) (execute_scheduled_task perform now task t).1.tasks ≡ false
  unfolding execute_scheduled_task record_run
  execute_rests task t =
      elim (Bool-cases (not (is_extension task.body.task_type) && is_blank task.body.target_url)) [
        | inl e ↦
            rw (execute_scheduled_task, e)
              (change_rests now task (no_target now) (omega arith) t.tasks)
        | inr e ↦
            rw (execute_scheduled_task, e)
              (change_rests now task (perform task) (later task) t.tasks)
      ]

  execute_records :
      (task : Task) (t : Table)
      → map shown_run (execute_scheduled_task perform now task t).1.runs
        ≡ map shown_run t.runs ++ came_to perform task ∷ []
  unfolding execute_scheduled_task record_run
  execute_records task t =
      elim (Bool-cases (not (is_extension task.body.task_type) && is_blank task.body.target_url)) [
        | inl e ↦
            rw (execute_scheduled_task, e)
              (map-append shown_run t.runs (run_row t.next_run task (no_target now) ∷ []))
        | inr e ↦
            rw (execute_scheduled_task, e)
              (map-append shown_run t.runs (run_row t.next_run task (perform task) ∷ []))
      ]

  all_keep :
      (tasks : List Task) (t : Table) (id : ℕ)
      → any (still_due now id) t.tasks ≡ false
      → any (still_due now id) (execute_all perform now tasks t).tasks ≡ false
  unfolding execute_all
  all_keep [] t id h = h
  all_keep (task ∷ tasks) t id h =
      all_keep tasks (execute_scheduled_task perform now task t).1 id (execute_keeps task t id h)

  all_rest :
      (tasks : List Task) (t : Table) (id : ℕ)
      → any (has_id id) tasks ≡ true
      → any (still_due now id) (execute_all perform now tasks t).tasks ≡ false
  unfolding execute_all any
  all_rest [] t id h = ground arith
  all_rest (task ∷ tasks) t id h = elim (Bool-cases (task.id == id)) [
    | inl e ↦ all_keep tasks (execute_scheduled_task perform now task t).1 id (
        ap (λ i. any (still_due now i) (execute_scheduled_task perform now task t).1.tasks)
          (sym (==-eq task.id id e))
        ∙ execute_rests task t)
    | inr e ↦ all_rest tasks (execute_scheduled_task perform now task t).1 id (ground arith)
  ]

  all_record :
      (tasks : List Task) (t : Table)
      → map shown_run (execute_all perform now tasks t).runs
        ≡ map shown_run t.runs ++ map (came_to perform) tasks
  unfolding execute_all
  all_record [] t = sym (append-nil (map shown_run t.runs))
  all_record (task ∷ tasks) t =
      all_record tasks (execute_scheduled_task perform now task t).1
      ∙ ap (λ rs. rs ++ map (came_to perform) tasks) (execute_records task t)
      ∙ append_assoc (map shown_run t.runs) (came_to perform task ∷ [])
          (map (came_to perform) tasks)

  counted :
      (due : List Task) (rs : List (ℕ × Text)) (runs : List Run)
      → map shown_run runs ≡ rs ++ map (came_to perform) due
      → length runs ≡ length due + length rs
  counted due rs runs h = omega (
    arith,
    length-map shown_run runs,
    ap length h,
    length-append rs (map (came_to perform) due),
    length-map (came_to perform) due,
  )

  -- When nothing finishes before the round began: after a round, no task that the round ran is enabled with a time that
  -- has come, whatever the requests came to; the runs of the table are those from before and then, in the order of the
  -- round's tasks, one for each, with the task's ID and the status that its request came to, or `failed` where it has
  -- no target; and the count that is returned is the number of the new runs.
  pub run_due_once_lem :
      (batch_size : ℕ) (t : Table)
      → let due = get_due_scheduled_tasks now (max 1 batch_size) t in
        let (count, t') = run_due_once perform now batch_size t in
        ((id : ℕ) → any (has_id id) due ≡ true → any (still_due now id) t'.tasks ≡ false)
        × (map shown_run t'.runs ≡ map shown_run t.runs ++ map (came_to perform) due)
        × (length t'.runs ≡ count + length t.runs)
  unfolding run_due_once
  run_due_once_lem batch_size t =
      let due = get_due_scheduled_tasks now (max 1 batch_size) t in
      let recorded = all_record due t in
      (
        λ id m. all_rest due t id m,
        recorded,
        counted due (map shown_run t.runs) (execute_all perform now due t).runs recorded
            ∙ ap (λ n. length due + n) (length-map shown_run t.runs),
      )
