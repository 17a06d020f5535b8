-- ===== src/Queue/Recover.antt =====
-- `_recover`: a pending delivery with no live lease is made ready for another attempt.
use cga.Prelude.{
  ℕ, zero, suc, max, String, Bool, true, false, not, ◌||◌, Option, none, some, List, leb, ltb,
  if◌then◌else◌,
}
use cga.Queue.Job.{IndexJob, Codec, Worker}
use cga.Queue.Status.{
  Hash, Phase, failed, retrying, entry, nat, readable, Item, is_terminal, is_elsewhere, is_retrying,
  retry_due, attempt_count, base_status, or_text,
}
use cga.Queue.History.{history, finish_history}
use cga.Queue.Redis.{Redis, hgetall, hset, persist, sadd, get_lease, is_delivered, xclaim}
use cga.Queue.Watch.{Outcome, ok, raise, Attempt, leave, exec, Rivals, watching, watch_retries}
use cga.Queue.Ack.{ack, after_ack}
use cga.Queue.Claim.{is_leased}
use cga.Queue.Quarantine.{quarantine}

abbrev failed_error : Option Phase → Option String → Option String
failed_error (some failed) e = e
failed_error _ e = none

-- The error that a recovered delivery is given.
unfoldable pub recovered_error : Hash → String
recovered_error h =
    or_text (failed_error h.status h.error) "Recovered abandoned delivery without a live lease"

abbrev recovered_history : ℕ → Hash → String → String → List Item
recovered_history zero h error stamp = history h
recovered_history (suc n) h error stamp = finish_history h (suc n) (some error) stamp

-- The fields written for an abandoned delivery that had been handed out `times` times.
unfoldable pub recovered_fields : Codec → IndexJob → ℕ → ℕ → String → ℕ → Hash → Hash
unfolding base_status history finish_history recovered_error
recovered_fields c job mid times stamp now h =
    let attempts = attempt_count h (max 1 times) in
    let over = leb job.max_attempts attempts in
    record (base_status c.dump job (if over then failed else retrying) (entry mid) stamp h) {
      attempts = some (nat attempts);
      error = some (recovered_error h);
      next_retry_at_ms = some (nat now);
      attempt_history = some (readable (recovered_history attempts h (recovered_error h) stamp));
      recovery_action = some "pending_replay";
      terminal = if over then some true else h.terminal;
      dead_letter = if over then some true else h.dead_letter;
    }

-- The claim at the end of a transaction, with its result: whether XCLAIM returned the message.
abbrev pub hand_over : Bool → Worker → ℕ → Redis → Outcome Bool × Redis
hand_over true w mid r = (ok (is_delivered r mid), xclaim mid w.name r)
hand_over false w mid r = (ok true, r)

unfoldable pub store_recovery : Codec → IndexJob → ℕ → ℕ → String → Redis → Redis
unfolding recovered_fields
store_recovery c job mid times stamp r =
    persist job.job_id (hset job.job_id (recovered_fields c job mid times stamp r.now) r)

-- The transaction for an abandoned delivery; past the budget it is the end of the job.
unfoldable pub recover_exec :
    Codec → Worker → IndexJob → ℕ → ℕ → Bool → String → Redis → Outcome Bool × Redis
unfolding store_recovery
recover_exec c w job mid times claim stamp r =
    let stored = store_recovery c job mid times stamp r in
    if leb job.max_attempts (attempt_count (hgetall r job.job_id) (max 1 times))
    then after_ack false (ack mid job.job_id (sadd job.job_id stored))
    else hand_over claim w mid stored

abbrev pub after_quarantine : Outcome (Unit {0}) × Redis → Attempt Bool
after_quarantine (ok u, r) = leave (ok false) r
after_quarantine (raise e, r) = leave (raise e) r

-- One round. `idle` and `times` are XPENDING's; `inner` is what rivals do to the quarantine.
unfoldable pub recover_attempt :
    Codec → Worker → List Rivals → IndexJob → ℕ → ℕ → ℕ → ℕ → Bool → String → Redis → Attempt Bool
recover_attempt c w inner job mid idle times min_idle claim stamp r =
    let status = hgetall r job.job_id in
    let acked = ack mid job.job_id r in
    let quarantined =
      quarantine c inner mid (c.dump job) "Duplicate job ID on a different stream entry" none stamp
        r in
    if is_leased (get_lease r mid)
    then leave (ok false) r
    else if is_elsewhere status mid
    then after_quarantine quarantined
    else if is_terminal status
    then (let (o, r') = after_ack false acked in leave o r')
    else if is_retrying status
    then (if not claim || not (retry_due status r.now)
        then leave (ok false) r
        else exec (hand_over claim w mid))
    else if ltb idle min_idle
    then leave (ok false) r
    else exec (recover_exec c w job mid times claim stamp)

unfoldable pub recover :
    Codec
    → Worker
    → List Rivals
    → List Rivals
    → IndexJob
    → ℕ
    → ℕ
    → ℕ
    → ℕ
    → Bool
    → String
    → Redis
    → Outcome Bool × Redis
unfolding watching recover_attempt recover_exec quarantine
recover c w rivals inner job mid idle times min_idle claim stamp =
    watching watch_retries rivals (ok false)
      (recover_attempt c w inner job mid idle times min_idle claim stamp)
