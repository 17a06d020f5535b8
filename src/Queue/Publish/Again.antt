-- ===== src/Queue/Publish/Again.antt =====
-- `publish` for a job that was published, and for a job ID that is taken.
use cga.Prelude.{
  ℕ, String, ◌≡◌, refl, none, some, arith, eq_refl, ==-refl, inl, inr, false, str_eq, Bool-cases,
  if◌then◌else◌, Option-cases, ◌∙◌, ap,
}
use cga.Queue.Job.{IndexJob, Codec}
use cga.Queue.Status.{Hash, entry, pending, is_terminal}
use cga.Queue.Redis.{Redis, find_hash, find_entry, hgetall, hset, persist, xadd}
use cga.Queue.Redis.Effects.{find_entry-append, hash_effects, hgetall-eq}
use cga.Queue.Watch.{ok}
use cga.Queue.Publish.{initial_fields, republish, publish_new, publish_job}

-- Over a job ID that is there, the script writes nothing, whatever it answers.
pub publish_job-taken :
    (c : Codec) (job : IndexJob) (stamp : String) (r : Redis) {h : Hash}
    → find_hash r job.job_id ≡ some h
    → publish_job c job stamp r ≡ republish h (c.dump job) job.job_id r
unfolding publish_job
publish_job-taken c job stamp r e = rw (e, publish_job)

pub republish_unchanged :
    (h : Hash) (payload k : String) (r : Redis) → (republish h payload k r).1 ≡ r
unfolding republish
republish_unchanged h payload k r = ground arith

-- The hash that a new publication leaves.
pub published : Codec → IndexJob → String → Redis → Hash
published c job stamp r = record (initial_fields c job stamp (hgetall r job.job_id)) {
  stream_id = some (entry r.next_id);
  status = some pending;
}

-- A publication writes its own status and no other.
pub find_hash-publish_new :
    (c : Codec) (job : IndexJob) (stamp : String) (r : Redis) (j : String)
    → find_hash (publish_new c job stamp r).1 j
      ≡ (if str_eq j job.job_id then some (published c job stamp r) else find_hash r j)
unfolding publish_new published
find_hash-publish_new c job stamp r j = elim (Bool-cases (str_eq j job.job_id)) [
  | inl same ↦ simp (hash_effects, hgetall-eq, same)
  | inr other ↦ simp (hash_effects, other)
]

pub published_fields :
    (c : Codec) (job : IndexJob) (stamp : String) (r : Redis)
    → ((published c job stamp r).stream_id ≡ some (entry r.next_id))
      × (is_terminal (published c job stamp r) ≡ false)
unfolding published is_terminal
published_fields c job stamp r = (refl, refl)

stream-publish_new :
    (c : Codec) (job : IndexJob) (stamp : String) (r : Redis)
    → find_entry r.stream r.next_id ≡ none
    → find_entry (publish_new c job stamp r).1.stream r.next_id ≡ some (c.dump job)
unfolding publish_new hset persist xadd
stream-publish_new c job stamp r e =
    find_entry-append r.stream r.next_id r.next_id (c.dump job) e ∙ rw ==-refl

-- What the script answers over the hash of a new publication whose entry is in the stream.
republish-published :
    (c : Codec) (job : IndexJob) (stamp : String) (r s : Redis)
    → find_entry s.stream r.next_id ≡ some (c.dump job)
    → republish (published c job stamp r) (c.dump job) job.job_id s ≡ (ok r.next_id, s)
unfolding republish published initial_fields is_terminal
republish-published c job stamp r s e = simp (eq_refl, e)

again-new :
    (c : Codec) (job : IndexJob) (stamp later : String) (r : Redis)
    → find_entry r.stream r.next_id ≡ none
    → publish_job c job later (publish_new c job stamp r).1
      ≡ (ok r.next_id, (publish_new c job stamp r).1)
again-new c job stamp later r free =
    publish_job-taken c job later (publish_new c job stamp r).1
      (find_hash-publish_new c job stamp r job.job_id ∙ rw eq_refl)
    ∙ republish-published c job stamp r (publish_new c job stamp r).1
        (stream-publish_new c job stamp r free)

pub publish_job-new :
    (c : Codec) (job : IndexJob) (stamp : String) (r : Redis)
    → find_hash r job.job_id ≡ none
    → publish_job c job stamp r ≡ (ok r.next_id, (publish_new c job stamp r).1)
unfolding publish_job publish_new
publish_job-new c job stamp r e = rw (e, publish_job)

-- Once a job is published, publishing it again answers with the same stream ID and writes nothing,
-- whatever the time; the next stream ID must be free when it is published first.
pub publish-publish :
    (c : Codec) (job : IndexJob) (stamp later : String) (r : Redis) (id : ℕ) (s : Redis)
    → find_entry r.stream r.next_id ≡ none
    → publish_job c job stamp r ≡ (ok id, s)
    → publish_job c job later s ≡ (ok id, s)
publish-publish c job stamp later r id s free e = elim (Option-cases (find_hash r job.job_id)) [
  | inl new ↦ ground (arith, publish_job-new c job stamp r new, again-new c job stamp later r free)
  | inr (h, old) ↦
      let q = publish_job-taken c job stamp r old in
      let same : r ≡ s = ground (arith, q, republish_unchanged h (c.dump job) job.job_id r) in
      let old' : find_hash s job.job_id ≡ some h = rw (← same) old in
      ground (
        arith,
        same,
        q,
        publish_job-taken c job later s old',
        ap (republish h (c.dump job) job.job_id) same,
      )
]
