-- ===== src/Queue/Safety/Handlers.antt =====
-- The transactions of claims, renewals, finishes and recoveries keep a sound store sound.
use cga.Prelude.{ℕ, String, ◌≡◌, refl, ◌∙◌, ap, true, false, Option, none, some, arith, ==-refl}
use cga.Queue.Job.{IndexJob, Codec, Worker}
use cga.Queue.Status.{
  Hash, Phase, retrying, entry, is_terminal, is_elsewhere, base_status, attempt_count,
}
use cga.Queue.Redis.{
  Redis, find_hash, hgetall, hset, persist, get_lease, extend_lease, drop_lease, sadd, is_delivered,
  fields_of,
}
use cga.Queue.Redis.Effects.{hgetall-eq}
use cga.Queue.Claim.{start, store_burial, renew, processing_fields, exhausted_fields}
use cga.Queue.Finish.{Stats, store_finish, finished_fields, mark_cleanup, final_phase}
use cga.Queue.Recover.{store_recovery, recovered_fields}
use cga.Queue.Safety.Invariant.{Carries, Carries-unique, Belongs, IsSound}
use cga.Queue.Safety.Rewrite.{Rewrites, Rewrites-IsSound}
use cga.Queue.Safety.Writes.{
  hset-Rewrites, xclaim-Rewrites, sadd-Rewrites, set_lease-Rewrites, extend_lease-Rewrites,
  dropped_Rewrites,
}

module _ (c : Codec) {r : Redis} (i : IsSound c r) (job : IndexJob) (m : ℕ) where
  -- A pending message of the job is in the stream, and carries it.
  delivered-Carries : is_delivered r m ≡ true → Belongs c r m job.job_id → Carries c r m job.job_id
  delivered-Carries d b = let (p, e) = i.present m d in b.only p e

  pub start-IsSound :
      (w : Worker) (token stamp : String)
      → is_delivered r m ≡ true
      → is_elsewhere (hgetall r job.job_id) m ≡ false
      → Belongs c r m job.job_id
      → IsSound c (start c w job m token stamp r).1
  unfolding start processing_fields base_status
  start-IsSound w token stamp d here b =
      let going : is_terminal (processing_fields c w job m stamp (hgetall r job.job_id)) ≡ false =
        unfold is_terminal in refl in
      Rewrites-IsSound
        (xclaim-Rewrites m w.name (
          set_lease-Rewrites token w.lease_ms going (
            hset-Rewrites r job.job_id (processing_fields c w job m stamp) m refl
              (λ t. cc (going, t)))))
        i (delivered-Carries d b) here

  pub store_burial-IsSound :
      (stamp : String)
      → get_lease r m ≡ none
      → is_delivered r m ≡ true
      → is_elsewhere (hgetall r job.job_id) m ≡ false
      → Belongs c r m job.job_id
      → IsSound c (store_burial c job m stamp r)
  unfolding store_burial exhausted_fields base_status
  store_burial-IsSound stamp free d here b =
      Rewrites-IsSound
        (sadd-Rewrites job.job_id
          (hset-Rewrites r job.job_id (exhausted_fields c job m stamp) m refl (λ t. free)))
        i (delivered-Carries d b) here

  pub store_recovery-IsSound :
      (times : ℕ) (stamp : String)
      → get_lease r m ≡ none
      → is_elsewhere (hgetall r job.job_id) m ≡ false
      → Carries c r m job.job_id
      → IsSound c (store_recovery c job m times stamp r)
  unfolding store_recovery recovered_fields base_status
  store_recovery-IsSound times stamp free here carried =
      Rewrites-IsSound
        (hset-Rewrites r job.job_id (recovered_fields c job m times stamp r.now) m refl (λ t. free))
        i carried here

  -- What a worker with a live lease finds: its own job's status, not terminal, linked to the message.
  record IsMine : Type 0 where
    status : Hash
    at : find_hash r job.job_id ≡ some status
    going : is_terminal status ≡ false
    linked : status.stream_id ≡ some (entry m)
    carried : Carries c r m job.job_id

  mine : (t : String) → get_lease r m ≡ some t → Belongs c r m job.job_id → IsMine
  mine t e b =
      let q = i.held m t e in
      let kept = i.kept q.key q.status q.at q.open_job in
      let here : kept.message ≡ m = cc (kept.linked, q.linked) in
      let carried : Carries c r m q.key = rw (← here) kept.carried in
      let own = b.only carried.payload carried.stored in
      let named : q.key ≡ job.job_id = Carries-unique carried own in
      record {
        status = q.status;
        at = rw (← named) q.at;
        going = q.open_job;
        linked = q.linked;
        carried = own;
      }

  not_elsewhere : IsMine → is_elsewhere (hgetall r job.job_id) m ≡ false
  unfolding is_elsewhere
  not_elsewhere q = ground (arith, hgetall-eq job.job_id r, q.at, q.linked)

  mark_Rewrites :
      (phase : Phase) {s : Redis} {h : Hash}
      → Rewrites (drop_lease m r) s job.job_id h m
      → Rewrites (drop_lease m r) (mark_cleanup phase job.job_id s) job.job_id h m
  mark_Rewrites retrying w = w
  mark_Rewrites _ w = sadd-Rewrites job.job_id w

  linked-finished_fields :
      (stats : Option Stats) (error : Option String) (stamp : String) (now : ℕ) (h : Hash)
      → (finished_fields c job m stats error stamp now h).stream_id ≡ some (entry m)
  unfolding finished_fields base_status
  linked-finished_fields stats error stamp now h = ground arith

  dropped : get_lease (drop_lease m r) m ≡ none
  unfolding get_lease drop_lease
  dropped = rw ==-refl

  drop_lease-mark_cleanup :
      (phase : Phase) (s : Redis)
      → drop_lease m (mark_cleanup phase job.job_id s)
        ≡ mark_cleanup phase job.job_id (drop_lease m s)
  unfolding drop_lease sadd
  drop_lease-mark_cleanup retrying s = refl
  drop_lease-mark_cleanup _ s = refl

  -- The lease may as well be deleted first.
  store_finish-drop :
      (stats : Option Stats) (error : Option String) (stamp : String)
      → store_finish c job m stats error stamp r
        ≡ mark_cleanup
            (final_phase error (attempt_count (hgetall r job.job_id) 0) job.max_attempts)
            job.job_id
            (persist job.job_id
              (hset job.job_id (finished_fields c job m stats error stamp r.now) (drop_lease m r)))
  unfolding store_finish hset hgetall find_hash persist drop_lease
  store_finish-drop stats error stamp =
      drop_lease-mark_cleanup
        (final_phase error (attempt_count (hgetall r job.job_id) 0) job.max_attempts)
        (persist job.job_id (hset job.job_id (finished_fields c job m stats error stamp r.now) r))

  pub store_finish-IsSound :
      (token : String) (stats : Option Stats) (error : Option String) (stamp : String)
      → get_lease r m ≡ some token
      → Belongs c r m job.job_id
      → IsSound c (store_finish c job m stats error stamp r)
  store_finish-IsSound token stats error stamp e b =
      let q = mine token e b in
      let phase = final_phase error (attempt_count (hgetall r job.job_id) 0) job.max_attempts in
      let f = finished_fields c job m stats error stamp r.now in
      let linked =
        linked-finished_fields stats error stamp r.now (hgetall (drop_lease m r) job.job_id) in
      rw store_finish-drop (
        Rewrites-IsSound
          (dropped_Rewrites (
            mark_Rewrites phase
              (hset-Rewrites (drop_lease m r) job.job_id f m linked (λ t. dropped))))
          i q.carried (not_elsewhere q))

  pub renew-IsSound :
      (w : Worker) (token stamp : String)
      → get_lease r m ≡ some token
      → Belongs c r m job.job_id
      → IsSound c (renew w job m stamp r).1
  unfolding renew extend_lease hset hgetall find_hash persist
  renew-IsSound w token stamp e b =
      let q = mine token e b in
      let f = λ (h : Hash). record h { heartbeat_at = some stamp; updated_at = some stamp } in
      let found : hgetall r job.job_id ≡ q.status = hgetall-eq job.job_id r ∙ ap fields_of q.at in
      let going : is_terminal (f (hgetall r job.job_id)) ≡ false =
        rw found (unfold is_terminal in q.going) in
      Rewrites-IsSound
        (xclaim-Rewrites m w.name (
          extend_lease-Rewrites w.lease_ms going
            (hset-Rewrites r job.job_id f m (rw found q.linked) (λ t. cc (going, t)))))
        i q.carried (not_elsewhere q)
