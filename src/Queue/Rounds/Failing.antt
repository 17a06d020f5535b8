-- ===== src/Queue/Rounds/Failing.antt =====
-- A job whose attempts all fail: each round uses up one attempt, and the last makes a dead letter.
use cga.Prelude.{
  ℕ, suc, ◌<◌, String, ◌≡◌, refl, ◌∙◌, ap, true, false, not, ◌&&◌, none, some, [], arith, eq_refl,
  leb, if◌then◌else◌,
}
use cga.Queue.Job.{IndexJob, Codec, Worker}
use cga.Queue.Status.{failed, retrying, done, is_retrying, retry_due, attempt_count, base_status}
use cga.Queue.Redis.{
  Redis, find_entry, is_delivered, hgetall, hset, persist, find_hash, fields_of, get_lease,
  set_lease, xclaim,
}
use cga.Queue.Redis.Effects.{hgetall-eq, find_hash-persist-hset}
use cga.Queue.Watch.{ok, raise, contended}
use cga.Queue.Watch.Rounds.{watching-nil}
use cga.Queue.Claim.{set_job_processing, claim_attempt, start, processing_fields}
use cga.Queue.Fencing.{IsFree, lease-start}
use cga.Queue.Finish.{Stats, set_job_failed, set_job_done, is_success}
use cga.Queue.Rounds.{attempts, finish_lem}

module _ (c : Codec) (w : Worker) (job : IndexJob) (m : ℕ) (token stamp : String) (r : Redis) where
  -- A free message whose job is due is claimed.
  pub claim_free :
      IsFree job m r
      → (is_retrying (hgetall r job.job_id) && not (retry_due (hgetall r job.job_id) r.now)) ≡ false
      → set_job_processing c w [] job m token stamp r
        ≡ (ok (some token), (start c w job m token stamp r).1)
  unfolding set_job_processing
  claim_free free due =
      watching-nil (raise contended) (claim_attempt c w job m token stamp) 4 r
      ∙ (unfold claim_attempt start in ground (arith, free))

  hash-start :
      hgetall (start c w job m token stamp r).1 job.job_id
      ≡ processing_fields c w job m stamp (hgetall r job.job_id)
  unfolding start xclaim set_lease find_hash
  hash-start =
      let found : find_hash
            (persist job.job_id (hset job.job_id (processing_fields c w job m stamp) r)) job.job_id
          ≡ some (processing_fields c w job m stamp (hgetall r job.job_id)) =
        find_hash-persist-hset job.job_id job.job_id (processing_fields c w job m stamp) r
        ∙ rw eq_refl in
      hgetall-eq job.job_id _ ∙ ap fields_of found

  -- The claim counts one attempt.
  pub attempts-start : attempts job (start c w job m token stamp r).1 ≡ suc (attempts job r)
  attempts-start = rw hash-start (unfold processing_fields attempt_count base_status in refl)

  -- One round in which the indexing fails, with a positive lease time and no rival: a free and due
  -- message is claimed, and the failure uses up one attempt. The job is failed for good exactly
  -- when this was the last of the budget, and is to be retried otherwise; the lease is gone.
  pub failed_round :
      (error later : String)
      → IsFree job m r
      → (is_retrying (hgetall r job.job_id) && not (retry_due (hgetall r job.job_id) r.now)) ≡ false
      → 0 < w.lease_ms
      → let (o, s) = set_job_processing c w [] job m token stamp r in
        let (p, t) = set_job_failed c [] job error m token later s in
        (o ≡ ok (some token))
        × (p ≡ ok (if leb job.max_attempts (suc (attempts job r)) then failed else retrying))
        × (attempts job t ≡ suc (attempts job r))
        × (get_lease t m ≡ none)
  failed_round error later free due pos = rw (claim_free free due) (
      unfold set_job_failed in
      let q =
        finish_lem c job m later token none (some error) (start c w job m token stamp r).1
          (lease-start c w job m token stamp r pos) in
      (refl, rw (← attempts-start) q.0, q.1.counted ∙ attempts-start, q.1.unleased))

  -- One round in which the indexing succeeds, with a positive lease time and no rival: a free and
  -- due message is claimed, and committed statistics without errors make the job done: its message
  -- has left the stream and the pending list, and the lease is gone.
  pub finished_round :
      (stats : Stats) (later : String)
      → IsFree job m r
      → (is_retrying (hgetall r job.job_id) && not (retry_due (hgetall r job.job_id) r.now)) ≡ false
      → 0 < w.lease_ms
      → is_success stats ≡ true
      → let (o, s) = set_job_processing c w [] job m token stamp r in
        let (p, t) = set_job_done c [] job stats m token later s in
        (o ≡ ok (some token))
        × (p ≡ ok done)
        × (find_entry t.stream m ≡ none)
        × (is_delivered t m ≡ false)
        × (get_lease t m ≡ none)
  finished_round stats later free due pos success = rw (claim_free free due) (
      unfold set_job_done in
      let q =
        finish_lem c job m later token (some stats) none (start c w job m token stamp r).1
          (lease-start c w job m token stamp r pos) in
      rw success (refl, q.0, q.1.gone (λ e. cc), q.1.settled (λ e. cc), q.1.unleased))
