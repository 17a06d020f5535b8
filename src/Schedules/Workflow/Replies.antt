-- ===== src/Schedules/Workflow/Replies.antt =====
-- `_wait_for_browseragent_result`: the reply that a result rests on.
use cga.Prelude.{
  ℕ, ◌≡◌, ◌⊎◌, refl, sym, ap, ◌∙◌, subst, inl, inr, Bool, true, false, List, [], ◌∷◌, ◌==◌, arith,
  Bool-cases, if◌then◌else◌,
}
use cga.Text.{Text, codes}
use cga.Json.{Fields, get}
use cga.Schedules.Browser.{Python, Try, done, raised, ◌>>=◌}
use cga.Schedules.Workflow.{
  Reply, unreachable, answered, Attempt, Outcome, payload_of, data_of, counts_nothing, is_assertion,
  judged, judge, gave_up, wait_for_result,
}

pub done_eq : {A : Type 0} (a b : A) → done a ≡ done b → a ≡ b
done_eq a b e = cc

-- What a chain that returned has returned in its first part.
pub >>=_done :
    {A B : Type 0} (m : Try A) (k : A → Try B) (b : B)
    → (m >>= k) ≡ done b
    → (a : A) × (m ≡ done a) × (k a ≡ done b)
>>=_done (done a) k b e = (a, refl, e)
>>=_done (raised t) k b e = cc

-- The payload is that of the first of the replies that is no 404.
abbrev pub IsReply : List Reply → Fields → Type 0
IsReply [] payload = ⊥
IsReply (unreachable ∷ replies) payload = IsReply replies payload
IsReply (answered status body ∷ replies) payload =
    (((status == 404) ≡ false) × (payload ≡ payload_of body))
    ⊎ (((status == 404) ≡ true) × IsReply replies payload)

-- The payload is that of the reply that ended an attempt at a command.
abbrev pub IsReplyTo : (ℕ → Attempt) → ℕ → Fields → Type 0
IsReplyTo attempts n payload = IsReply (attempts n).polls payload

module _ (f : Python) where
  -- An assertion that is a success saw its text: a payload of these has a count that is not below one.
  abbrev pub IsBacked : (Fields → Type 0) → Outcome → Type 0
  IsBacked Seen o =
      o.success ≡ true
      → is_assertion o.action o.id ≡ true
      → (payload : Fields) × Seen payload
        × (counts_nothing f (data_of (get payload "data")) ≡ done false)

  pub IsBacked-weaken :
      (P Q : Fields → Type 0) (o : Outcome)
      → ((payload : Fields) → P payload → Q payload)
      → IsBacked P o
      → IsBacked Q o
  IsBacked-weaken P Q o g b s a = let (payload, p, c) = b s a in (payload, g payload p, c)

  judge-IsBacked :
      (id action : Text) (params payload : Fields) (o : Outcome)
      → judge f id action params payload ≡ done o
      → IsBacked (λ q. q ≡ payload) o
  unfolding judge
  judge-IsBacked id action params payload o e = elim (Bool-cases (is_assertion action id)) [
    | inl q ↦ asserted (
        >>=_done (counts_nothing f (data_of (get payload "data")))
          (λ nothing. done (judged f id action params payload nothing)) o
          (sym (
              ap
                (λ b.
                  if b
                  then (counts_nothing f (data_of (get payload "data")) >>= λ nothing.
                      done (judged f id action params payload nothing))
                  else done (judged f id action params payload false))
                q)
            ∙ e))
    | inr q ↦
        subst (IsBacked (λ q. q ≡ payload))
          (done_eq (judged f id action params payload false) o (
            sym (
              ap
                (λ b.
                  if b
                  then (counts_nothing f (data_of (get payload "data")) >>= λ nothing.
                      done (judged f id action params payload nothing))
                  else done (judged f id action params payload false))
                q)
            ∙ e))
          (λ s a. absurd (clash (is_assertion action id) a q))
  ]
    where
      clash : (b : Bool) → b ≡ true → b ≡ false → ⊥
      clash b h k = ground arith

      asserted :
          (nothing : Bool) × (counts_nothing f (data_of (get payload "data")) ≡ done nothing)
            × (done (judged f id action params payload nothing) ≡ done o)
          → IsBacked (λ q. q ≡ payload) o
      asserted (true, c, d) =
          subst (IsBacked (λ q. q ≡ payload)) (done_eq (judged f id action params payload true) o d)
            (λ s a. absurd (ground (arith, s)))
      asserted (false, c, d) =
          subst (IsBacked (λ q. q ≡ payload))
            (done_eq (judged f id action params payload false) o d) (λ s a. (payload, refl, c))

  pub gave_up-IsBacked :
      (Seen : Fields → Type 0) (id action error : Text) (n : ℕ)
      → IsBacked Seen (gave_up id action error n)
  gave_up-IsBacked Seen id action error n s a = absurd (ground (arith, s))

  pub wait-IsBacked :
      (id action : Text) (params : Fields) (replies : List Reply) (o : Outcome)
      → wait_for_result f id action params replies ≡ done o
      → IsBacked (IsReply replies) o
  unfolding wait_for_result
  wait-IsBacked id action params [] o e = subst (IsBacked (IsReply [])) (done_eq _ o e) (
      gave_up-IsBacked (IsReply []) id action (codes "Timed out waiting for BrowserAgent result") 0)
  wait-IsBacked id action params (unreachable ∷ replies) o e =
      wait-IsBacked id action params replies o e
  wait-IsBacked id action params (answered status body ∷ replies) o e =
      elim (Bool-cases (status == 404)) [
        | inl q ↦
            IsBacked-weaken (IsReply replies) (IsReply (answered status body ∷ replies)) o
              (λ payload r. inr (q, r))
              (wait-IsBacked id action params replies o (sym (ap chosen q) ∙ e))
        | inr q ↦
            IsBacked-weaken (λ p. p ≡ payload_of body) (IsReply (answered status body ∷ replies)) o
              (λ payload r. inl (q, r))
              (judge-IsBacked id action params (payload_of body) o (sym (ap chosen q) ∙ e))
      ]
    where
      chosen : Bool → Try Outcome
      chosen b =
          if b
          then wait_for_result f id action params replies
          else judge f id action params (payload_of body)
