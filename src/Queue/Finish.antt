-- ===== src/Queue/Finish.antt =====
-- `set_job_done`, `set_job_failed` and `_finish`: the end of an attempt.
use cga.Prelude.{
  ℕ, ◌+◌, ◌-◌, ◌*◌, ◌^◌, min, String, Bool, true, false, Option, none, some, List, leb,
  if◌then◌else◌,
}
use cga.Queue.Job.{IndexJob, Codec}
use cga.Queue.Status.{
  Hash, Phase, done, failed, retrying, entry, nat, readable, Reported, clear, reported,
  attempt_count, base_status, or_text,
}
use cga.Queue.History.{finish_history}
use cga.Queue.Redis.{Redis, hgetall, hset, persist, sadd, get_lease, drop_lease}
use cga.Queue.Watch.{
  Outcome, ok, raise, lease_lost, not_committed, Attempt, leave, exec, Rivals, watching,
  watch_retries,
}
use cga.Queue.Ack.{ack, after_ack}
use cga.Queue.Claim.{holds}

-- The `errors` entry of the pipeline's statistics: absent or equal to 0 or [], or anything else.
pub data StatErrors : Type 0 where
  clean : StatErrors
  dirty : String → StatErrors

-- The pipeline's statistics: what the queue reads of them, and their JSON text.
pub record Stats : Type 0 where
  pub errors : StatErrors
  pub committed : Option Bool
  pub json : String

-- `require_success_stats`, as a test.
unfoldable pub is_success : Stats → Bool
is_success s = elim s.errors [
  | clean ↦ elim s.committed [ none ↦ true | some b ↦ b ]
  | dirty t ↦ false
]

-- The delay before the next attempt: doubling from one second, at most thirty.
unfoldable pub retry_delay_ms : ℕ → ℕ
retry_delay_ms attempts = min 30 (2 ^ (attempts - 1)) * 1000

abbrev pub final_phase : Option String → ℕ → ℕ → Phase
final_phase none attempts max_attempts = done
final_phase (some e) attempts max_attempts = if leb max_attempts attempts then failed else retrying

abbrev reported_errors : StatErrors → Reported
reported_errors clean = clear
reported_errors (dirty t) = reported t

abbrev with_stats : Option Stats → Hash → Hash
with_stats none h = h
with_stats (some s) h = record h { stats = some s.json; errors = some (reported_errors s.errors) }

abbrev with_error : Option String → Hash → Hash
with_error (some e) h = record h { error = some e }
with_error none h = record h {
  error = some "";
  next_retry_at_ms = some (nat 0);
  recovery_action = some "";
}

-- The last fields depend on the phase: when to try again, or that this is the end.
abbrev with_phase : Phase → Option String → ℕ → ℕ → Hash → Hash
with_phase retrying error attempts now h = record h {
  next_retry_at_ms = some (nat (now + retry_delay_ms attempts));
}
with_phase _ error attempts now h = record h {
  terminal = some true;
  dead_letter = some (elim error [ none ↦ false | some e ↦ true ]);
}

unfoldable pub finished_fields :
    Codec → IndexJob → ℕ → Option Stats → Option String → String → ℕ → Hash → Hash
unfolding base_status finish_history
finished_fields c job mid stats error stamp now h =
    let attempts = attempt_count h 0 in
    let phase = final_phase error attempts job.max_attempts in
    with_phase phase error attempts now (
      with_stats stats (
        with_error error (record (base_status c.dump job phase (entry mid) stamp h) {
          attempt_history = some (readable (finish_history h attempts error stamp));
        })))

abbrev pub finish_ack : Phase → ℕ → String → Redis → Outcome Phase × Redis
finish_ack retrying mid k r = (ok retrying, r)
finish_ack phase mid k r = after_ack phase (ack mid k r)

abbrev pub mark_cleanup : Phase → String → Redis → Redis
mark_cleanup retrying k r = r
mark_cleanup phase k r = sadd k r

-- The transaction of `_finish`, up to EXEC.
unfoldable pub store_finish :
    Codec → IndexJob → ℕ → Option Stats → Option String → String → Redis → Redis
unfolding finished_fields
store_finish c job mid stats error stamp r = drop_lease mid (
    mark_cleanup (final_phase error (attempt_count (hgetall r job.job_id) 0) job.max_attempts)
      job.job_id
      (persist job.job_id (hset job.job_id (finished_fields c job mid stats error stamp r.now) r)))

unfoldable pub finish_exec :
    Codec → IndexJob → ℕ → Option Stats → Option String → String → Redis → Outcome Phase × Redis
unfolding store_finish
finish_exec c job mid stats error stamp r =
    finish_ack (final_phase error (attempt_count (hgetall r job.job_id) 0) job.max_attempts) mid
      job.job_id (store_finish c job mid stats error stamp r)

unfoldable pub finish_attempt :
    Codec → IndexJob → ℕ → String → Option Stats → Option String → String → Redis → Attempt Phase
finish_attempt c job mid token stats error stamp r =
    if holds (get_lease r mid) token
    then exec (finish_exec c job mid stats error stamp)
    else leave (raise lease_lost) r

abbrev pub or_unexplained : Option String → Option String
or_unexplained none = none
or_unexplained (some e) = some (or_text (some e) "Indexing failed without error details")

unfoldable pub finish :
    Codec
    → List Rivals
    → IndexJob
    → ℕ
    → String
    → Option Stats
    → Option String
    → String
    → Redis
    → Outcome Phase × Redis
unfolding watching finish_attempt finish_exec
finish c rivals job mid token stats error stamp =
    watching watch_retries rivals (raise lease_lost)
      (finish_attempt c job mid token stats (or_unexplained error) stamp)

unfoldable pub set_job_done :
    Codec → List Rivals → IndexJob → Stats → ℕ → String → String → Redis → Outcome Phase × Redis
unfolding finish is_success
set_job_done c rivals job stats mid token stamp r =
    if is_success stats
    then finish c rivals job mid token (some stats) none stamp r
    else (raise not_committed, r)

unfoldable pub set_job_failed :
    Codec → List Rivals → IndexJob → String → ℕ → String → String → Redis → Outcome Phase × Redis
unfolding finish
set_job_failed c rivals job error mid token stamp =
    finish c rivals job mid token none (some error) stamp
