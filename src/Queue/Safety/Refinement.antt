-- ===== src/Queue/Safety/Refinement.antt =====
-- `set_job_processing`, `_finish` and `heartbeat` as sequences of steps, when no other client writes between WATCH and
-- EXEC.
use cga.Prelude.{
  ℕ, String, ◌≡◌, refl, inl, inr, true, false, not, ◌&&◌, Option, none, some, [], leb, Bool-cases,
  arith, eq_iff,
}
use cga.Queue.Job.{IndexJob, Codec, Worker}
use cga.Queue.Status.{
  Phase, retrying, is_terminal, is_elsewhere, is_retrying, retry_due, attempt_count,
}
use cga.Queue.Redis.{Redis, hgetall, get_lease, is_delivered}
use cga.Queue.Watch.{Outcome, ok, raise, lease_lost, contended, leave}
use cga.Queue.Watch.Rounds.{run, watching-nil}
use cga.Queue.Ack.{ack, after_ack}
use cga.Queue.Claim.{
  set_job_processing, claim_attempt, bury, heartbeat, heartbeat_attempt, holds, is_leased,
}
use cga.Queue.Finish.{
  Stats, finish, finish_attempt, finish_exec, finish_ack, final_phase, or_unexplained,
}
use cga.Queue.Safety.Invariant.{Belongs}
use cga.Queue.Safety.Steps.{Reach, here, next, begin, exhaust, beat, conclude, acknowledge}

after_ack_store : {A : Type 0} (a : A) (x : Outcome (Unit {0}) × Redis) → (after_ack a x).1 ≡ x.1
after_ack_store a (ok u, r) = refl
after_ack_store a (raise e, r) = refl

unleased_of : (o : Option String) → is_leased o ≡ false → o ≡ none
unleased_of none h = refl
unleased_of (some t) h = cc

held_of : (o : Option String) (token : String) → holds o token ≡ true → o ≡ some token
held_of none token h = cc
held_of (some t) token h = ground (arith, eq_iff t token)

module _ (c : Codec) (job : IndexJob) (m : ℕ) (stamp : String) (r : Redis) where
  acked_Reach : {s : Redis} (k : String) → Reach c r s → Reach c r (ack m k s).1
  acked_Reach k q = next q (acknowledge m k)

  bury-Reach :
      get_lease r m ≡ none
      → is_delivered r m ≡ true
      → is_elsewhere (hgetall r job.job_id) m ≡ false
      → Belongs c r m job.job_id
      → Reach c r (bury c job m stamp r).1
  unfolding bury
  bury-Reach free d h b =
      rw after_ack_store (acked_Reach job.job_id (next here (exhaust job m stamp free d h b)))

  run-leave : (o : Outcome (Option String)) → Reach c r (run (leave o r) r).1
  run-leave o = here

  claim_round :
      (w : Worker) (token : String)
      → Belongs c r m job.job_id
      → Reach c r (run (claim_attempt c w job m token stamp r) r).1
  unfolding claim_attempt
  claim_round w token b = elim (Bool-cases (is_elsewhere (hgetall r job.job_id) m)) [
    | inl e ↦ rw e here
    | inr h ↦ rw h (elim (Bool-cases (is_terminal (hgetall r job.job_id))) [
      | inl e ↦ rw e (rw after_ack_store (acked_Reach job.job_id here))
      | inr going ↦ rw going (elim (Bool-cases (is_leased (get_lease r m))) [
        | inl e ↦ rw e here
        | inr free ↦
            rw free
              (elim (Bool-cases (
                is_retrying (hgetall r job.job_id)
                && not (retry_due (hgetall r job.job_id) r.now))) [
                  | inl e ↦ rw e here
                  | inr due ↦ rw due (elim (Bool-cases (is_delivered r m)) [
                    | inl d ↦
                        rw d
                          (elim (Bool-cases
                            (leb job.max_attempts (attempt_count (hgetall r job.job_id) 0))) [
                              | inl e ↦ rw e (bury-Reach (unleased_of _ free) d h b)
                              | inr e ↦ rw e (next here (begin w job m token stamp d h b))
                            ])
                    | inr e ↦ rw e here
                  ])
                ])
      ])
    ])
  ]

  -- A call of `set_job_processing` that meets no rival is a sequence of steps of the queue, of whatever outcome, when the
  -- message carries the job if it is in the stream at all.
  pub set_job_processing-Reach :
      (w : Worker) (token : String)
      → Belongs c r m job.job_id
      → Reach c r (set_job_processing c w [] job m token stamp r).1
  unfolding set_job_processing
  set_job_processing-Reach w token b =
      rw (watching-nil (raise contended) (claim_attempt c w job m token stamp) 4 r)
        (claim_round w token b)

  -- The renewal of a lease is a sequence of steps, too.
  pub heartbeat-Reach :
      (w : Worker) (token : String)
      → Belongs c r m job.job_id
      → Reach c r (heartbeat w [] job m token stamp r).1
  unfolding heartbeat
  heartbeat-Reach w token b =
      rw (watching-nil (ok false) (heartbeat_attempt w job m token stamp) 4 r) (
        unfold heartbeat_attempt in
        elim (Bool-cases (holds (get_lease r m) token)) [
          | inl e ↦ rw e (next here (beat w job m token stamp (held_of _ token e) b))
          | inr e ↦ rw e here
        ])

  finish_ack-Reach :
      (phase : Phase) {s : Redis} → Reach c r s → Reach c r (finish_ack phase m job.job_id s).1
  finish_ack-Reach retrying q = q
  finish_ack-Reach _ q = rw after_ack_store (acked_Reach job.job_id q)

  -- A call of `_finish` that meets no rival, whether it ends the job, schedules a retry or finds that the lease is lost, is
  -- a sequence of steps of the queue, when the message carries the job if it is in the stream at all.
  pub finish-Reach :
      (token : String) (stats : Option Stats) (error : Option String)
      → Belongs c r m job.job_id
      → Reach c r (finish c [] job m token stats error stamp r).1
  unfolding finish
  finish-Reach token stats error b =
      rw
        (watching-nil (raise lease_lost)
          (finish_attempt c job m token stats (or_unexplained error) stamp) 4 r)
        (unfold finish_attempt finish_exec in
          elim (Bool-cases (holds (get_lease r m) token)) [
            | inl e ↦ rw e (
                finish_ack-Reach
                  (final_phase (or_unexplained error) (attempt_count (hgetall r job.job_id) 0)
                    job.max_attempts)
                  (next here (
                    conclude job m token stats (or_unexplained error) stamp (held_of _ token e) b)))
            | inr e ↦ rw e here
          ])
