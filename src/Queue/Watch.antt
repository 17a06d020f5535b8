-- ===== src/Queue/Watch.antt =====
-- Optimistic transactions: the `for _ in range(_WATCH_RETRIES)` loops around WATCH and EXEC.
pub mod Rounds
use cga.Prelude.{ℕ, zero, suc, String, List, [], ◌∷◌}
use cga.Queue.Redis.{Redis}

-- The exceptions that leave an operation.
pub data Error : Type 0 where
  lease_lost : Error
  duplicate_job : Error
  refused_ack : Error
  expired_before_ack : Error
  contended : Error
  not_committed : Error
  conflict : Error
  invalid_id : Error
  invalid : String → Error

pub data Outcome {ℓ} (A : Type ℓ) : Type ℓ where
  ok : A → Outcome A
  raise : Error → Outcome A

-- What an operation does between WATCH and EXEC: it leaves with no EXEC, having done other commands
-- perhaps, or it sends a transaction that is all or nothing, and goes on after it.
pub data Attempt (A : Type 0) : Type 0 where
  leave : Outcome A → Redis → Attempt A
  exec : (Redis → Outcome A × Redis) → Attempt A

-- What other clients do to the watched keys while one attempt runs. `undisturbed` is nothing, and
-- EXEC takes effect; `disturbed f` is a change, and EXEC fails with WatchError.
pub data Rivals : Type 0 where
  undisturbed : Rivals
  disturbed : (Redis → Redis) → Rivals

abbrev pub watch_retries : ℕ
watch_retries = 5

settle : {A : Type 0} → Attempt A → Rivals → Redis → (Redis → Outcome A × Redis) → Outcome A × Redis
settle (leave o r') rival r retry = (o, r')
settle (exec go) undisturbed r retry = go r
settle (exec go) (disturbed f) r retry = retry (f r)

-- The loop: `given_up` is the outcome after the last WatchError. Attempts past the list of rivals
-- are undisturbed.
unfoldable pub watching :
    {A : Type 0} → ℕ → List Rivals → Outcome A → (Redis → Attempt A) → Redis → Outcome A × Redis
unfolding settle
watching zero rivals given_up body r = (given_up, r)
watching (suc n) [] given_up body r = settle (body r) undisturbed r (watching n [] given_up body)
watching (suc n) (x ∷ rivals) given_up body r =
    settle (body r) x r (watching n rivals given_up body)
