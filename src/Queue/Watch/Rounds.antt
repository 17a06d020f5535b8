-- ===== src/Queue/Watch/Rounds.antt =====
-- What a retry loop returns comes from one of its rounds, at the store that this round read.
use cga.Prelude.{ℕ, zero, suc, ◌≡◌, refl, ◌⊎◌, inl, inr, List, [], ◌∷◌, ap, sym}
use cga.Queue.Redis.{Redis}
use cga.Queue.Watch.{
  Outcome, Attempt, leave, exec, Rivals, undisturbed, disturbed, settle, watching,
}

-- A round that no rival disturbs.
abbrev pub run : {A : Type 0} → Attempt A → Redis → Outcome A × Redis
run (leave o s) r = (o, s)
run (exec go) r = go r

module _ {A : Type 0} (given_up : Outcome A) (body : Redis → Attempt A) where
  settle-undisturbed :
      (a : Attempt A) (r : Redis) (retry : Redis → Outcome A × Redis)
      → settle a undisturbed r retry ≡ run a r
  unfolding settle
  settle-undisturbed (leave o s) r retry = refl
  settle-undisturbed (exec go) r retry = refl

  pub watching-nil : (n : ℕ) (r : Redis) → watching (suc n) [] given_up body r ≡ run (body r) r
  unfolding watching
  watching-nil n r = settle-undisturbed (body r) r (watching n [] given_up body)

  Ended : Outcome A → Redis → Type 0
  Ended o s = (o ≡ given_up) ⊎ ((r : Redis) × (run (body r) r ≡ (o, s)))

  settle-Ended :
      (a : Attempt A) (x : Rivals) (r : Redis) (retry : Redis → Outcome A × Redis) {o : Outcome A}
      {s : Redis}
      → body r ≡ a
      → ((t : Redis) → retry t ≡ (o, s) → Ended o s)
      → settle a x r retry ≡ (o, s)
      → Ended o s
  unfolding settle Ended
  settle-Ended (leave p t) x r retry e again h = inr (r, rw e h)
  settle-Ended (exec go) undisturbed r retry e again h = inr (r, rw e h)
  settle-Ended (exec go) (disturbed f) r retry e again h = again (f r) h

  watching-Ended :
      (n : ℕ) (rivals : List Rivals) (r : Redis) {o : Outcome A} {s : Redis}
      → watching n rivals given_up body r ≡ (o, s)
      → Ended o s
  unfolding watching Ended
  watching-Ended zero rivals r h = inl (ap (λ (p : Outcome A × Redis). p.0) (sym h))
  watching-Ended (suc n) [] r h =
      settle-Ended (body r) undisturbed r (watching n [] given_up body) refl
        (λ t. watching-Ended n [] t) h
  watching-Ended (suc n) (x ∷ rivals) r h =
      settle-Ended (body r) x r (watching n rivals given_up body) refl
        (λ t. watching-Ended n rivals t) h

  -- A loop either gives up, or returns what one undisturbed round returned.
  pub watching_ended :
      (n : ℕ) (rivals : List Rivals) (r : Redis) {o : Outcome A} {s : Redis}
      → watching n rivals given_up body r ≡ (o, s)
      → (o ≡ given_up) ⊎ ((t : Redis) × (run (body t) t ≡ (o, s)))
  unfolding Ended
  watching_ended = watching-Ended

  -- A round that leaves is the last, whatever the rivals do.
  pub watching-leave :
      (n : ℕ) (rivals : List Rivals) (r : Redis) {o : Outcome A} {s : Redis}
      → body r ≡ leave o s
      → watching (suc n) rivals given_up body r ≡ (o, s)
  unfolding watching settle
  watching-leave n [] r e = rw (e, settle)
  watching-leave n (x ∷ rivals) r e = rw (e, settle)
