-- ===== src/Schedules/Execute/Trusted.antt =====
-- `execute_scheduled_task` for a browser test that is recorded as a success.
use cga.Prelude.{
  ℕ, suc, ◌+◌, ◌≡◌, ◌⊎◌, refl, sym, ap, ◌∙◌, inl, inr, true, false, none, List, [], ◌∷◌, arith,
  Bool-cases, length, All, if◌then◌else◌,
}
use cga.Text.{Text, codes}
use cga.Json.{Fields, end, get}
use cga.Schedules.Table.{Task}
use cga.Schedules.Browser.{Python, Try, done, raised, Command, build_page_test}
use cga.Schedules.Workflow.{
  Attempt, Outcome, data_of, counts_nothing, is_assertion, Run, no_run, run_commands, failures,
}
use cga.Schedules.Workflow.Replies.{IsReplyTo}
use cga.Schedules.Workflow.Succeeded.{AreBacked, run_commands_lem}
use cga.Schedules.Execute.{
  World, judged_results, judge_summary, came, verdict_of, after_workflow, run_test, execute_test,
}

Try-cases : {A : Type 0} (r : Try A) → ((a : A) × (r ≡ done a)) ⊎ ((t : Text) × (r ≡ raised t))
Try-cases (done a) = inl (a, refl)
Try-cases (raised t) = inr (t, refl)

failed_success : ¬ (codes "failed" ≡ codes "success")
failed_success e = cc

List-cases : {A : Type 0} (xs : List A) → (xs ≡ []) ⊎ ((x : A) × (ys : List A) × (xs ≡ x ∷ ys))
List-cases [] = inl refl
List-cases (x ∷ xs) = inr (x, xs, refl)

no_failures : (os : List Outcome) → failures os ≡ [] → All (λ o. o.success ≡ true) os
unfolding failures
no_failures [] e = tt
no_failures (o ∷ os) e = elim (Bool-cases o.success) [
  | inl s ↦ (s, no_failures os (sym (ap (λ b. if b then failures os else o ∷ failures os) s) ∙ e))
  | inr s ↦ absurd (nonempty (sym (ap (λ b. if b then failures os else o ∷ failures os) s) ∙ e))
]
  where
    nonempty : (o ∷ failures os) ≡ [] → ⊥
    nonempty e = cc

module _ (f : Python) where
  -- A success; and if it is an assertion, the reply that ended the attempt it names has a count that is not below one.
  abbrev pub IsTrusted : (ℕ → Attempt) → Outcome → Type 0
  IsTrusted attempts o =
      (o.success ≡ true)
      × (is_assertion o.action o.id ≡ true
          → (payload : Fields) × IsReplyTo attempts o.attempts payload
            × (counts_nothing f (data_of (get payload "data")) ≡ done false))

  -- Each result, by the attempts at the command of its number.
  abbrev pub AreTrusted : (ℕ → ℕ → Attempt) → ℕ → List Outcome → Type 0
  AreTrusted commands n [] = Unit
  AreTrusted commands n (o ∷ os) = IsTrusted (commands n) o × AreTrusted commands (suc n) os

  trusted :
      (commands : ℕ → ℕ → Attempt) (n : ℕ) (os : List Outcome)
      → All (λ o. o.success ≡ true) os
      → AreBacked f commands n os
      → AreTrusted commands n os
  trusted commands n [] s b = tt
  trusted commands n (o ∷ os) (s, ss) (b, bs) = ((s, b s), trusted commands (suc n) os ss bs)

  succeeded :
      (w : World) (n : ℕ) (r : Run)
      → (after_workflow w n (done r)).status ≡ codes "success"
      → failures r.results ≡ []
  unfolding judge_summary
  succeeded w n r e = elim (List-cases (failures r.results)) [
    | inl empty ↦ empty
    | inr (o, os, full) ↦ absurd (
        failed_success (
          sym (
            ap
              (λ fs.
                (came w
                  (judged_results fs
                    (verdict_of r.status_code (codes "BrowserAgent command failed")))
                  none end).status)
              full)
          ∙ e))
  ]

  -- When a browser test is recorded as a success: its commands were built and run, each has a result, each result is a
  -- success, and each assertion names an attempt at its command whose first reply that is no 404 has a count that is not
  -- below one.
  pub execute_test_lem :
      (w : World) (task : Task) (spec : Fields)
      → (execute_test f w task spec).status ≡ codes "success"
      → (commands : List Command) × (r : Run) × (build_page_test f w.clock task spec w.run_id
          ≡ done commands)
        × (run_commands f w.commands 0 commands no_run ≡ done r)
        × AreTrusted w.commands 0 r.results
        × (length r.results ≡ length commands)
  unfolding execute_test
  execute_test_lem w task spec e = elim (Try-cases (build_page_test f w.clock task spec w.run_id)) [
    | inr (t, b) ↦ absurd (failed_success (sym (ap (λ m. (run_test f w m).status) b) ∙ e))
    | inl (commands, b) ↦ elim (Try-cases (run_commands f w.commands 0 commands no_run)) [
      | inr (t, q) ↦ absurd (
          failed_success (
            sym (
              ap (λ m. (run_test f w m).status) b
              ∙ ap (λ m. (after_workflow w (length commands) m).status) q)
            ∙ e))
      | inl (r, q) ↦
          let (backed, count) = run_commands_lem f w.commands 0 commands no_run r refl tt q in
          let ok =
            sym (
              ap (λ m. (run_test f w m).status) b
              ∙ ap (λ m. (after_workflow w (length commands) m).status) q)
            ∙ e in
          (
            commands,
            r,
            b,
            q,
            trusted w.commands 0 r.results
                (no_failures r.results (succeeded w (length commands) r ok)) backed,
            count ∙ counted (length commands),
          )
    ]
  ]
    where
      counted : (n : ℕ) → 0 + n ≡ n
      counted n = omega arith
