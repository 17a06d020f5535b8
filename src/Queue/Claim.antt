-- ===== src/Queue/Claim.antt =====
-- `set_job_processing` and `heartbeat`: taking the lease of a message, and keeping it.
use cga.Prelude.{
  ℕ, suc, String, Bool, true, false, not, ◌&&◌, Option, none, some, List, [], ◌∷◌, ◌++◌, leb,
  str_eq, if◌then◌else◌,
}
use cga.Queue.Job.{IndexJob, Codec, Worker}
use cga.Queue.Status.{
  Hash, failed, processing, entry, nat, readable, blank_item, is_terminal, is_elsewhere,
  is_retrying, retry_due, attempt_count, base_status, or_text,
}
use cga.Queue.History.{history}
use cga.Queue.Redis.{
  Redis, hgetall, hset, persist, sadd, get_lease, set_lease, extend_lease, is_delivered, xclaim,
}
use cga.Queue.Watch.{
  Outcome, ok, raise, duplicate_job, contended, Attempt, leave, exec, Rivals, watching,
  watch_retries,
}
use cga.Queue.Ack.{ack, after_ack}

abbrev pub is_leased : Option String → Bool
is_leased none = false
is_leased (some t) = true

-- The fields of a job whose retry budget is used up.
unfoldable pub exhausted_fields : Codec → IndexJob → ℕ → String → Hash → Hash
unfolding base_status
exhausted_fields c job mid stamp h = record (base_status c.dump job failed (entry mid) stamp h) {
  terminal = some true;
  dead_letter = some true;
  error = some (or_text h.error "Retry budget exhausted");
}

-- The fields of a job that a worker starts on.
unfoldable pub processing_fields : Codec → Worker → IndexJob → ℕ → String → Hash → Hash
unfolding base_status history
processing_fields c w job mid stamp h =
    record (base_status c.dump job processing (entry mid) stamp h) {
      attempts = some (nat (suc (attempt_count h 0)));
      terminal = some false;
      attempt_history = some (
          readable (
            history h
            ++ record blank_item {
              attempt = some (suc (attempt_count h 0));
              started_at = some stamp;
            }
              ∷ []));
      heartbeat_at = some stamp;
      consumer = some w.name;
    }

-- The transaction of a job with no attempt left, and the `ack` after it.
unfoldable pub store_burial : Codec → IndexJob → ℕ → String → Redis → Redis
unfolding exhausted_fields
store_burial c job mid stamp r =
    sadd job.job_id (persist job.job_id (hset job.job_id (exhausted_fields c job mid stamp) r))

unfoldable pub bury : Codec → IndexJob → ℕ → String → Redis → Outcome (Option String) × Redis
unfolding store_burial
bury c job mid stamp r = after_ack none (ack mid job.job_id (store_burial c job mid stamp r))

-- The transaction that starts an attempt.
unfoldable pub start :
    Codec → Worker → IndexJob → ℕ → String → String → Redis → Outcome (Option String) × Redis
unfolding processing_fields
start c w job mid token stamp r = (
  ok (some token),
  xclaim mid w.name (
      set_lease mid token w.lease_ms
        (persist job.job_id (hset job.job_id (processing_fields c w job mid stamp) r))),
)

-- One round of the loop. `token` is the fresh `uuid4().hex`.
unfoldable pub claim_attempt :
    Codec → Worker → IndexJob → ℕ → String → String → Redis → Attempt (Option String)
claim_attempt c w job mid token stamp r =
    let status = hgetall r job.job_id in
    let acked = ack mid job.job_id r in
    if is_elsewhere status mid
    then leave (raise duplicate_job) r
    else if is_terminal status
    then (let (o, r') = after_ack none acked in leave o r')
    else if is_leased (get_lease r mid)
    then leave (ok none) r
    else if is_retrying status && not (retry_due status r.now)
    then leave (ok none) r
    else if not (is_delivered r mid)
    then leave (ok none) r
    else if leb job.max_attempts (attempt_count status 0)
    then exec (bury c job mid stamp)
    else exec (start c w job mid token stamp)

-- `set_job_processing`: the lease token, or `none` where there is nothing to do.
unfoldable pub set_job_processing :
    Codec
    → Worker
    → List Rivals
    → IndexJob
    → ℕ
    → String
    → String
    → Redis
    → Outcome (Option String) × Redis
unfolding watching claim_attempt bury start
set_job_processing c w rivals job mid token stamp =
    watching watch_retries rivals (raise contended) (claim_attempt c w job mid token stamp)

abbrev pub holds : Option String → String → Bool
holds none token = false
holds (some t) token = str_eq t token

unfoldable pub renew : Worker → IndexJob → ℕ → String → Redis → Outcome Bool × Redis
renew w job mid stamp r = (
  ok true,
  xclaim mid w.name (
      persist job.job_id (
        hset job.job_id (λ h. record h { heartbeat_at = some stamp; updated_at = some stamp })
          (extend_lease mid w.lease_ms r))),
)

unfoldable pub heartbeat_attempt : Worker → IndexJob → ℕ → String → String → Redis → Attempt Bool
heartbeat_attempt w job mid token stamp r =
    if holds (get_lease r mid) token then exec (renew w job mid stamp) else leave (ok false) r

unfoldable pub heartbeat :
    Worker → List Rivals → IndexJob → ℕ → String → String → Redis → Outcome Bool × Redis
unfolding watching heartbeat_attempt renew
heartbeat w rivals job mid token stamp =
    watching watch_retries rivals (ok false) (heartbeat_attempt w job mid token stamp)
