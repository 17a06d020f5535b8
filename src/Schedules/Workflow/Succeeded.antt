-- ===== src/Schedules/Workflow/Succeeded.antt =====
-- `_execute_browseragent_workflow`: the replies that the results of its commands rest on.
use cga.Prelude.{
  ℕ, zero, suc, ◌+◌, ◌≡◌, refl, sym, ap, ◌∙◌, subst, Bool, true, false, Option, none, some, List,
  [], ◌∷◌, ◌++◌, arith, length, length-append, leb, take,
}
use cga.Text.{Text, codes}
use cga.Json.{Fields}
use cga.Schedules.Browser.{Python, Try, done, Command}
use cga.Schedules.Workflow.{
  answered, Attempt, Posted, failed, Outcome, gave_up, wait_for_result, Progress, with_attempts,
  progressed, refused, settle, is_final, by_status, by_post, unless_late, attempt_command,
  attempt_id, max_attempts, in_tab, result_or, Run, begin, advance, run_commands,
}
use cga.Schedules.Workflow.Replies.{
  done_eq, >>=_done, IsReplyTo, IsBacked, gave_up-IsBacked, wait-IsBacked,
}

some_eq : {A : Type 0} (a b : A) → some a ≡ some b → a ≡ b
some_eq a b e = cc

module _ (f : Python) where
  -- A result, by the replies to the attempt that it names.
  abbrev HasBacked : (ℕ → Attempt) → Option Outcome → Type 0
  HasBacked world r = (o : Outcome) → r ≡ some o → IsBacked f (IsReplyTo world o.attempts) o

  none-HasBacked : (world : ℕ → Attempt) → HasBacked world none
  none-HasBacked world o e = cc

  some-HasBacked :
      (world : ℕ → Attempt) (x : Outcome)
      → IsBacked f (IsReplyTo world x.attempts) x
      → HasBacked world (some x)
  some-HasBacked world x h o e =
      subst (λ y. IsBacked f (IsReplyTo world y.attempts) y) (some_eq x o e) h

  module _ (world : ℕ → Attempt) (base action : Text) (params : Fields) where
    -- A function that ends the loop and keeps the result backed.
    abbrev Keeps : (Progress → Try Progress) → Type 0
    Keeps rest =
        (p q : Progress) → HasBacked world p.result → rest p ≡ done q → HasBacked world q.result

    done_keeps :
        (p q : Progress) → HasBacked world p.result → done p ≡ done q → HasBacked world q.result
    done_keeps p q h e = subst (λ r. HasBacked world r.result) (done_eq p q e) h

    settle-Keeps :
        (rest : Progress → Try Progress)
        → Keeps rest
        → (b : Bool) → Keeps (λ p. settle f world base action params rest p b)
    settle-Keeps rest k true p q h e = done_keeps p q h e
    settle-Keeps rest k false p q h e = k p q h e

    by_status-Keeps :
        (rest : Progress → Try Progress)
        → Keeps rest
        → (n status : ℕ) (text : Text) (b : Bool)
        → Keeps (λ p. by_status f world base action params rest n p status text b)
    by_status-Keeps rest k n status text true p q h e =
        done_keeps (refused f world base action params n status text p) q
          (some-HasBacked world (gave_up (attempt_id base n) action (take 1000 text) n)
            (gave_up-IsBacked f (IsReplyTo world n) (attempt_id base n) action (take 1000 text) n))
          e
    by_status-Keeps rest k n status text false p q h e =
        let (o, waited, settled) =
          >>=_done (wait_for_result f (attempt_id base n) action params (world n).polls)
            (λ o.
              settle f world base action params rest
                (progressed f world base action params n status p o)
                (is_final f world base action params o))
            q e in
        settle-Keeps rest k (is_final f world base action params o)
          (progressed f world base action params n status p o) q
          (some-HasBacked world (with_attempts n o)
            (wait-IsBacked f (attempt_id base n) action params (world n).polls o waited))
          settled

    by_post-Keeps :
        (rest : Progress → Try Progress)
        → Keeps rest
        → (n : ℕ) (posted : Posted)
        → Keeps (λ p. by_post f world base action params rest n p posted)
    by_post-Keeps rest k n (failed text) p q h e = cc
    by_post-Keeps rest k n (answered status text) p q h e =
        by_status-Keeps rest k n status text (leb 400 status) p q h e

    unless_late-Keeps :
        (rest : Progress → Try Progress)
        → Keeps rest
        → (n : ℕ) (late : Bool) → Keeps (λ p. unless_late f world base action params rest n p late)
    unless_late-Keeps rest k n true p q h e = done_keeps p q h e
    unless_late-Keeps rest k n false p q h e = by_post-Keeps rest k n (world n).posted p q h e

    attempt-Keeps : (left n : ℕ) → Keeps (attempt_command f world base action params left n)
    unfolding attempt_command
    attempt-Keeps zero n p q h e = done_keeps p q h e
    attempt-Keeps (suc left) n p q h e =
        unless_late-Keeps (attempt_command f world base action params left (suc n))
          (attempt-Keeps left (suc n)) n (world n).late p q h e

  result_or-IsBacked :
      (world : ℕ → Attempt) (id action : Text) (r : Option Outcome)
      → HasBacked world r
      → IsBacked f (IsReplyTo world (result_or id action r).attempts) (result_or id action r)
  result_or-IsBacked world id action none h =
      gave_up-IsBacked f (IsReplyTo world (max_attempts action)) id action
        (codes "Timed out before BrowserAgent command could complete") (max_attempts action)
  result_or-IsBacked world id action (some o) h = h o refl

  -- Each result, by the replies to the attempt that it names, at the command of its number.
  abbrev pub AreBacked : (ℕ → ℕ → Attempt) → ℕ → List Outcome → Type 0
  AreBacked world n [] = Unit
  AreBacked world n (o ∷ os) =
      IsBacked f (IsReplyTo (world n) o.attempts) o × AreBacked world (suc n) os

  AreBacked-snoc :
      (world : ℕ → ℕ → Attempt) (n m : ℕ) (os : List Outcome) (o : Outcome)
      → n + length os ≡ m
      → AreBacked world n os
      → IsBacked f (IsReplyTo (world m) o.attempts) o
      → AreBacked world n (os ++ o ∷ [])
  AreBacked-snoc world n m [] o e a h =
      let same : m ≡ n = omega (arith, e) in
      (subst (λ k. IsBacked f (IsReplyTo (world k) o.attempts) o) same h, tt)
  AreBacked-snoc world n m (p ∷ os) o e (k, a) h =
      (k, AreBacked-snoc world (suc n) m os o (omega (arith, e)) a h)

  -- A run that ended has one result for each command, each backed by the replies to its own command.
  pub run_commands_lem :
      (world : ℕ → ℕ → Attempt) (n : ℕ) (cs : List Command) (r q : Run)
      → length r.results ≡ n
      → AreBacked world 0 r.results
      → run_commands f world n cs r ≡ done q
      → AreBacked world 0 q.results × (length q.results ≡ n + length cs)
  unfolding run_commands
  run_commands_lem world n [] r q numbered a e = (
    subst (λ x. AreBacked world 0 x.results) (done_eq r q e) a,
    ap (λ x. length x.results) (sym (done_eq r q e)) ∙ omega (arith, numbered),
  )
  run_commands_lem world n (c ∷ cs) r q numbered a e =
      let params = in_tab c.action c.params r.tab_id in
      let (p, tried, rest) =
        >>=_done
          (attempt_command f (world n) c.id c.action params (max_attempts c.action) 1 (begin r))
          (λ p. run_commands f world (suc n) cs (advance c r p)) q e in
      let o = result_or c.id c.action p.result in
      let backed = result_or-IsBacked (world n) c.id c.action p.result (
        attempt-Keeps (world n) c.id c.action params (max_attempts c.action) 1 (begin r) p
          (none-HasBacked (world n)) tried) in
      let (all, count) =
        run_commands_lem world (suc n) cs (advance c r p) q
          (omega (arith, numbered, length-append r.results (o ∷ [])))
          (AreBacked-snoc world 0 n r.results o (omega (arith, numbered)) a backed) rest in
      (all, omega (arith, count))
