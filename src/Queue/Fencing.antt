-- ===== src/Queue/Fencing.antt =====
-- The lease of a message fences its workers: only the token that the lease holds can renew it or
-- end the attempt, and while it lives nobody else can start one.
use cga.Prelude.{
  ℕ, ◌<◌, String, ◌≡◌, refl, ◌≢◌, inl, inr, true, false, Option, none, some, List, arith, eq_iff,
}
use cga.Queue.Job.{IndexJob, Codec, Worker}
use cga.Queue.Status.{is_terminal, is_elsewhere, attempt_count}
use cga.Queue.Redis.{Redis, hgetall, get_lease, set_lease, xclaim, is_delivered}
use cga.Queue.Watch.{Outcome, ok, raise, lease_lost, contended, Rivals}
use cga.Queue.Watch.Rounds.{run, watching_ended, watching-leave}
use cga.Queue.Ack.{ack, after_ack}
use cga.Queue.Finish.{Stats, finish, finish_attempt, or_unexplained}
use cga.Queue.Claim.{
  set_job_processing, claim_attempt, bury, start, heartbeat, heartbeat_attempt, holds, is_leased,
}

-- What a claim that won has found: the round that won read `r`, and this held there.
pub record IsFree (job : IndexJob) (mid : ℕ) (r : Redis) : Type 0 where
  pub unleased : get_lease r mid ≡ none
  pub open_job : is_terminal (hgetall r job.job_id) ≡ false
  pub here : is_elsewhere (hgetall r job.job_id) mid ≡ false
  pub delivered : is_delivered r mid ≡ true
  pub budget : attempt_count (hgetall r job.job_id) 0 < job.max_attempts

unleased_of : (o : Option String) → is_leased o ≡ false → o ≡ none
unleased_of none h = refl
unleased_of (some t) h = cc

not-after_ack :
    (x : Outcome (Unit {0}) × Redis) {t : String} {s : Redis}
    → ¬ (after_ack {A = Option String} none x ≡ (ok (some t), s))
not-after_ack (ok u, r) e = cc
not-after_ack (raise x, r) e = cc

get_lease-set :
    (mid : ℕ) (token name : String) (ms : ℕ) (r : Redis)
    → 0 < ms
    → get_lease (xclaim mid name (set_lease mid token ms r)) mid ≡ some token
unfolding get_lease xclaim set_lease
get_lease-set mid token name ms r h = ground arith

module _ (c : Codec) (w : Worker) (job : IndexJob) (mid : ℕ) (token stamp : String) where
  run-claim_attempt :
      (r : Redis) {t : String} {s : Redis}
      → run (claim_attempt c w job mid token stamp r) r ≡ (ok (some t), s)
      → IsFree job mid r × (start c w job mid token stamp r ≡ (ok (some t), s))
  unfolding claim_attempt bury
  run-claim_attempt r h = ground (arith, not-after_ack (ack mid job.job_id r))

  pub lease-start :
      (r : Redis) → 0 < w.lease_ms → get_lease (start c w job mid token stamp r).1 mid ≡ some token
  unfolding start
  lease-start r h = get_lease-set mid token w.name w.lease_ms _ h

  token_of :
      (r : Redis) {t : String} {s : Redis}
      → start c w job mid token stamp r ≡ (ok (some t), s)
      → t ≡ token
  unfolding start
  token_of r q = cc q

  -- With a positive lease time, a claim that returns a token returns the worker's own fresh one;
  -- some store that the loop read was free for it: no live lease on the message, a job that is not
  -- terminal and not of another message, a pending delivery, and an attempt left. The store is
  -- what the start of the attempt makes of that one, and the lease holds this token.
  pub claim_won :
      (rivals : List Rivals) (r : Redis) (t : String) (s : Redis)
      → 0 < w.lease_ms
      → set_job_processing c w rivals job mid token stamp r ≡ (ok (some t), s)
      → (t ≡ token)
        × (get_lease s mid ≡ some token)
        × ((r0 : Redis) × IsFree job mid r0 × (s ≡ (start c w job mid token stamp r0).1))
  unfolding set_job_processing
  claim_won rivals r t s pos h =
      elim (watching_ended (raise contended) (claim_attempt c w job mid token stamp) 5 rivals r h) [
        | inl e ↦ cc
        | inr (r0, e) ↦ won r0 (run-claim_attempt r0 e)
      ]
    where
      won :
          (r0 : Redis)
          → IsFree job mid r0 × (start c w job mid token stamp r0 ≡ (ok (some t), s))
          → (t ≡ token)
            × (get_lease s mid ≡ some token)
            × ((r1 : Redis) × IsFree job mid r1 × (s ≡ (start c w job mid token stamp r1).1))
      won r0 (free, q) =
          let after : s ≡ (start c w job mid token stamp r0).1 = cc q in
          (token_of r0 q, rw after (lease-start r0 pos), (r0, free, after))

holds_of :
    (o : Option String) (mine theirs : String)
    → o ≡ some theirs
    → mine ≢ theirs
    → holds o mine ≡ false
holds_of none mine theirs e ne = refl
holds_of (some t) mine theirs e ne = ground (arith, eq_iff t mine)

-- Without the live lease a heartbeat is refused at once and writes nothing.
pub heartbeat_stale :
    (w : Worker) (rivals : List Rivals) (job : IndexJob) (mid : ℕ) (token stamp : String)
    (r : Redis)
    → holds (get_lease r mid) token ≡ false
    → heartbeat w rivals job mid token stamp r ≡ (ok false, r)
unfolding heartbeat
heartbeat_stale w rivals job mid token stamp r e =
    watching-leave (ok false) (heartbeat_attempt w job mid token stamp) 4 rivals r
      (unfold heartbeat_attempt in rw e)

-- Without the live lease an attempt cannot be ended: the worker is told that it lost the lease.
pub finish_stale :
    (c : Codec) (rivals : List Rivals) (job : IndexJob) (mid : ℕ) (token : String)
    (stats : Option Stats) (error : Option String) (stamp : String) (r : Redis)
    → holds (get_lease r mid) token ≡ false
    → finish c rivals job mid token stats error stamp r ≡ (raise lease_lost, r)
unfolding finish
finish_stale c rivals job mid token stats error stamp r e =
    watching-leave (raise lease_lost)
      (finish_attempt c job mid token stats (or_unexplained error) stamp) 4 rivals r
      (unfold finish_attempt in rw e)

-- With a positive lease time: after a claim of a message that returned a token, whoever holds
-- another token can neither end the attempt nor renew the lease, whatever rivals do; both leave
-- the store as the claim made it.
pub old_token_fenced :
    (c : Codec) (w old_w : Worker) (job : IndexJob) (mid : ℕ) (token old stamp later : String)
    (rivals others : List Rivals) (r : Redis) (t : String) (s : Redis) (stats : Option Stats)
    (error : Option String)
    → 0 < w.lease_ms
    → old ≢ token
    → set_job_processing c w rivals job mid token stamp r ≡ (ok (some t), s)
    → (finish c others job mid old stats error later s ≡ (raise lease_lost, s))
      × (heartbeat old_w others job mid old later s ≡ (ok false, s))
old_token_fenced c w old_w job mid token old stamp later rivals others r t s stats error pos ne h =
    let won = claim_won c w job mid token stamp rivals r t s pos h in
    let gone = holds_of (get_lease s mid) old token won.1 ne in
    (
      finish_stale c others job mid old stats error later s gone,
      heartbeat_stale old_w others job mid old later s gone,
    )
