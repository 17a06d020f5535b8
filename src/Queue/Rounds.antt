-- ===== src/Queue/Rounds.antt =====
-- One round of work on a message: the claim, and the end of the attempt, whatever its result.
pub mod Failing
use cga.Prelude.{
  ℕ, suc, ◌<◌, ◌≤◌, String, ◌≡◌, ◌≢◌, refl, sym, ◌∙◌, ap, Bool, true, false, not, ◌&&◌, Option,
  none, some, List, [], arith, eq_refl, eq_iff, str_eq, ◌==◌, ==-refl, leb, if◌then◌else◌,
}
use cga.Queue.Job.{IndexJob, Codec, Worker}
use cga.Queue.Status.{
  Hash, Phase, done, failed, retrying, entry, is_terminal, is_elsewhere, is_at, is_retrying,
  retry_due, attempt_count, base_status,
}
use cga.Queue.Redis.{
  Redis, find_hash, hgetall, hset, persist, fields_of, get_lease, set_lease, drop_lease, sadd,
  xclaim, is_delivered, find_entry,
}
use cga.Queue.Redis.Effects.{hgetall-eq, find_hash-persist-hset}
use cga.Queue.Watch.{Outcome, ok, raise, lease_lost, contended, exec}
use cga.Queue.Watch.Rounds.{run, watching-nil}
use cga.Queue.Ack.{ack, after_ack, release}
use cga.Queue.Claim.{set_job_processing, claim_attempt, start, processing_fields, holds}
use cga.Queue.Fencing.{IsFree, lease-start}
use cga.Queue.Finish.{
  Stats, is_success, finish, finish_attempt, finish_exec, finish_ack, store_finish, finished_fields,
  final_phase, mark_cleanup, or_unexplained, set_job_done, set_job_failed,
}
use cga.Queue.Safety.Removal.{Removes}
use cga.Queue.Safety.Acknowledge.{ack_terminal}

-- The attempts that a job's status counts.
abbrev pub attempts : IndexJob → Redis → ℕ
attempts job r = attempt_count (hgetall r job.job_id) 0

-- What the end of an attempt leaves in `t`, with the phase that it gave the job.
pub record IsEnded (job : IndexJob) (m : ℕ) (r t : Redis) (phase : Phase) : Type 0 where
  pub unleased : get_lease t m ≡ none
  pub counted : attempts job t ≡ attempts job r
  pub phased : (hgetall t job.job_id).status ≡ some phase
  pub gone : phase ≢ retrying → find_entry t.stream m ≡ none
  pub settled : phase ≢ retrying → is_delivered t m ≡ false

module _ (c : Codec) (job : IndexJob) (m : ℕ) (stamp : String) where
  abbrev pub k : String
  k = job.job_id

  find_hash-mark :
      (phase : Phase) (s : Redis) (j : String)
      → find_hash (drop_lease m (mark_cleanup phase k s)) j ≡ find_hash s j
  unfolding drop_lease sadd find_hash
  find_hash-mark retrying s j = refl
  find_hash-mark _ s j = refl

  lease-dropped : (phase : Phase) (s : Redis) → get_lease (drop_lease m s) m ≡ none
  unfolding drop_lease get_lease
  lease-dropped phase s = rw ==-refl

  -- The status that the end of an attempt leaves.
  status_after :
      (stats : Option Stats) (error : Option String) (r : Redis)
      → find_hash (store_finish c job m stats error stamp r) k
        ≡ some (finished_fields c job m stats error stamp r.now (hgetall r k))
  unfolding store_finish
  status_after stats error r =
      find_hash-mark (final_phase error (attempts job r) job.max_attempts) _ k
      ∙ find_hash-persist-hset k k _ r
      ∙ rw eq_refl

  finished_at :
      (stats : Option Stats) (error : Option String) (now : ℕ) (h : Hash)
      → ((finished_fields c job m stats error stamp now h).stream_id ≡ some (entry m))
        × ((finished_fields c job m stats error stamp now h).status
            ≡ some (final_phase error (attempt_count h 0) job.max_attempts))
        × ((finished_fields c job m stats error stamp now h).attempts ≡ h.attempts)
  unfolding finished_fields base_status
  finished_at stats error now h = (ground arith, ground arith, ground arith)

  ends_terminal :
      (stats : Option Stats) (error : Option String) (now : ℕ) (h : Hash)
      → is_terminal (finished_fields c job m stats error stamp now h)
        ≡ (elim (final_phase error (attempt_count h 0) job.max_attempts) [
          | retrying ↦ false
          | _ ↦ true
        ])
  unfolding finished_fields base_status is_terminal
  ends_terminal stats error now h = ground arith

  -- With its lease, an attempt is ended with one transaction, whatever `error` is.
  finish_held :
      (token : String) (stats : Option Stats) (error : Option String) (r : Redis)
      → get_lease r m ≡ some token
      → finish c [] job m token stats error stamp r
        ≡ finish_exec c job m stats (or_unexplained error) stamp r
  unfolding finish
  finish_held token stats error r e =
      watching-nil (raise lease_lost)
        (finish_attempt c job m token stats (or_unexplained error) stamp) 4 r
      ∙ (unfold finish_attempt in rw (e, finish_attempt) (rw eq_refl))

  stored_fields :
      (stats : Option Stats) (error : Option String) (r : Redis)
      → hgetall (store_finish c job m stats error stamp r) k
        ≡ finished_fields c job m stats error stamp r.now (hgetall r k)
  stored_fields stats error r = hgetall-eq k _ ∙ ap fields_of (status_after stats error r)

  stored-IsEnded :
      (stats : Option Stats) (error : Option String) (r : Redis)
      → final_phase error (attempts job r) job.max_attempts ≡ retrying
      → IsEnded job m r (store_finish c job m stats error stamp r) retrying
  stored-IsEnded stats error r e =
      let f = finished_at stats error r.now (hgetall r k) in
      record {
        unleased = unfold store_finish in lease-dropped retrying _;
        counted = unfold attempt_count in rw stored_fields (rw f.2);
        phased = rw stored_fields (f.1 ∙ ap some e);
        gone = λ h. absurd (h refl);
        settled = λ h. absurd (h refl);
      }

  module _ (stats : Option Stats) (error : Option String) (r : Redis) where
    abbrev stored : Redis
    stored = store_finish c job m stats error stamp r

    acked-IsEnded :
        (phase : Phase)
        → final_phase error (attempts job r) job.max_attempts ≡ phase
        → (elim phase [ retrying ↦ false | _ ↦ true ]) ≡ true
        → ((ack m k stored).0 ≡ ok tt) × IsEnded job m r (ack m k stored).1 phase
    acked-IsEnded phase e last =
        let f = finished_at stats error r.now (hgetall r k) in
        let over = ends_terminal stats error r.now (hgetall r k) in
        let (fine, w) =
          ack_terminal m k stored (finished_fields c job m stats error stamp r.now (hgetall r k))
            (status_after stats error r) (over ∙ rw e last) f.0 in
        let same : hgetall (ack m k stored).1 k ≡ hgetall stored k =
          hgetall-eq k _ ∙ ap fields_of (w.hashes k) ∙ sym (hgetall-eq k stored) in
        (
          fine,
          record {
            unleased = w.leases m ∙ (unfold store_finish in lease-dropped phase _);
            counted = unfold attempt_count in rw (same, stored_fields) (rw f.2);
            phased = rw (same, stored_fields) (f.1 ∙ ap some e);
            gone = λ h. w.stream m ∙ rw ==-refl;
            settled = λ h. w.delivered m ∙ rw ==-refl;
          },
        )

    IsEnded-after :
        (phase : Phase) (x : Outcome (Unit {0}) × Redis)
        → (x.0 ≡ ok tt) × IsEnded job m r x.1 phase
        → ((after_ack phase x).0 ≡ ok phase) × IsEnded job m r (after_ack phase x).1 phase
    IsEnded-after phase (ok u, t) q = (refl, q.1)
    IsEnded-after phase (raise z, t) q = cc (q.0)

    ending :
        (phase : Phase)
        → final_phase error (attempts job r) job.max_attempts ≡ phase
        → ((finish_ack phase m k stored).0 ≡ ok phase)
          × IsEnded job m r (finish_ack phase m k stored).1 phase
    ending retrying e = (refl, stored-IsEnded stats error r e)
    ending done e = IsEnded-after done (ack m k stored) (acked-IsEnded done e refl)
    ending failed e = IsEnded-after failed (ack m k stored) (acked-IsEnded failed e refl)
    ending phase e = IsEnded-after phase (ack m k stored) (acked-IsEnded phase e refl)

  -- A worker that holds its lease and meets no rival ends its attempt: the outcome is the phase
  -- that the error and the budget decide, the lease is gone, the attempt count stays, and a phase
  -- other than `retrying` has taken the message out of the stream and of the pending list.
  pub finish_lem :
      (token : String) (stats : Option Stats) (error : Option String) (r : Redis)
      → get_lease r m ≡ some token
      → let phase = final_phase (or_unexplained error) (attempts job r) job.max_attempts in
        let (o, t) = finish c [] job m token stats error stamp r in
        (o ≡ ok phase) × IsEnded job m r t phase
  finish_lem token stats error r e =
      rw (finish_held token stats error r e)
        (unfold finish_exec in ending stats (or_unexplained error) r _ refl)
