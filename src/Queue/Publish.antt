-- ===== src/Queue/Publish.antt =====
-- `JobProducer.publish`: the Lua script that links a stream entry with its status.
pub mod Again
use cga.Prelude.{
  ℕ, String, Bool, true, false, not, ◌||◌, Option, none, some, List, [], str_eq, if◌then◌else◌,
}
use cga.Queue.Job.{IndexJob, Codec}
use cga.Queue.Status.{
  Hash, Phase, publishing, unknown, pending, IdText, blank, entry, garbled, nat, readable,
  is_terminal, base_status,
}
use cga.Queue.Redis.{Redis, find_hash, hset, persist, xadd, find_entry}
use cga.Queue.Watch.{Outcome, ok, raise, conflict, invalid}

abbrev pub is_text : Option String → String → Bool
is_text none t = false
is_text (some s) t = str_eq s t

abbrev is_known_phase : Option Phase → Bool
is_known_phase none = false
is_known_phase (some publishing) = false
is_known_phase (some unknown) = false
is_known_phase (some _) = true

-- The fields of a new job, before its stream ID is known.
unfoldable pub initial_fields : Codec → IndexJob → String → Hash → Hash
unfolding base_status
initial_fields c job stamp h = record (base_status c.dump job publishing blank stamp h) {
  attempts = some (nat 0);
  attempt_history = some (readable []);
  terminal = some false;
}

-- The stream entry of a job that was published before.
abbrev check_entry : Option String → Bool → String → ℕ → Redis → Outcome ℕ × Redis
check_entry none done payload id r =
    if done
    then (ok id, r)
    else (raise (invalid "Active job stream payload is missing; recovery is required"), r)
check_entry (some p) done payload id r =
    if str_eq p payload
    then (ok id, r)
    else (raise (invalid "Job stream payload does not match its status"), r)

abbrev check_id : Option IdText → Hash → String → Redis → Outcome ℕ × Redis
check_id (some (entry id)) h payload r =
    check_entry (find_entry r.stream id) (is_terminal h) payload id r
check_id _ h payload r = (raise (invalid "Incomplete job publication; recovery is required"), r)

-- The script's branch for a job ID that is there; it writes nothing.
unfoldable pub republish : Hash → String → String → Redis → Outcome ℕ × Redis
republish h payload job_id r =
    if is_text h.payload payload
    then (if not (is_text h.job_id job_id) || not (is_known_phase h.status)
        then (raise (invalid "Incomplete job publication; recovery is required"), r)
        else check_id h.stream_id h payload r)
    else (raise conflict, r)

-- The script's branch for a new job ID.
unfoldable pub publish_new : Codec → IndexJob → String → Redis → Outcome ℕ × Redis
unfolding initial_fields
publish_new c job stamp r = (
  ok r.next_id,
  hset job.job_id (λ h. record h { stream_id = some (entry r.next_id); status = some pending })
      (xadd (c.dump job) (persist job.job_id (hset job.job_id (initial_fields c job stamp) r))),
)

abbrev publish_at : Option Hash → Codec → IndexJob → String → Redis → Outcome ℕ × Redis
publish_at none c job stamp r = publish_new c job stamp r
publish_at (some h) c job stamp r = republish h (c.dump job) job.job_id r

-- The script, on a job whose paths have been validated.
unfoldable pub publish_job : Codec → IndexJob → String → Redis → Outcome ℕ × Redis
unfolding publish_new republish
publish_job c job stamp r = publish_at (find_hash r job.job_id) c job stamp r

abbrev publish_valid : Outcome IndexJob → Codec → String → Redis → Outcome ℕ × Redis
publish_valid (ok job) c stamp r = publish_job c job stamp r
publish_valid (raise e) c stamp r = (raise e, r)

-- `publish`: `validate` is `validate_job_paths`, which rebinds the job's paths or refuses them.
unfoldable pub publish :
    (IndexJob → Outcome IndexJob) → Codec → IndexJob → String → Redis → Outcome ℕ × Redis
unfolding publish_job
publish validate c job stamp r = publish_valid (validate job) c stamp r
