-- ===== src/Queue/Quarantine.antt =====
-- `_quarantine`: a message whose payload cannot be read becomes a visible dead letter.
use Prim.Native.String.{◌++◌}
use cga.Prelude.{ℕ, String, true, Option, none, some, List, if◌then◌else◌}
use cga.Queue.Job.{Codec}
use cga.Queue.Status.{
  Hash, failed, entry, nat, readable, is_terminal, is_elsewhere, attempt_count, or_text,
}
use cga.Queue.History.{finish_history}
use cga.Queue.Redis.{Redis, hgetall, hset, persist, sadd, get_lease}
use cga.Queue.Watch.{
  Outcome, ok, raise, contended, Attempt, leave, exec, Rivals, watching, watch_retries,
}
use cga.Queue.Ack.{ack}
use cga.Queue.Claim.{is_leased}

abbrev pub quarantine_key : Codec → Option String → ℕ → String
quarantine_key c (some k) mid = or_text (some k) ("unreadable-" ++ c.id_text mid)
quarantine_key c none mid = "unreadable-" ++ c.id_text mid

unfoldable pub quarantined_fields : String → ℕ → String → String → String → Hash → Hash
unfolding finish_history
quarantined_fields key mid payload error stamp h = record h {
  job_id = some key;
  stream_id = some (entry mid);
  payload = some (or_text h.payload payload);
  status = some failed;
  terminal = some true;
  dead_letter = some true;
  error = some error;
  attempts = some (nat (attempt_count h 0));
  attempt_history = some (readable (finish_history h (attempt_count h 0) (some error) stamp));
  updated_at = some stamp;
}

unfoldable pub quarantine_exec :
    String → ℕ → String → String → String → Redis → Outcome (Unit {0}) × Redis
unfolding quarantined_fields
quarantine_exec key mid payload error stamp r =
    ack mid key
      (sadd key (persist key (hset key (quarantined_fields key mid payload error stamp) r)))

unfoldable pub quarantine_attempt :
    String → ℕ → String → String → String → Redis → Attempt (Unit {0})
quarantine_attempt key mid payload error stamp r =
    let status = hgetall r key in
    let acked = ack mid key r in
    if is_leased (get_lease r mid)
    then leave (ok tt) r
    else if is_elsewhere status mid
    then leave (ok tt) r
    else if is_terminal status
    then (let (o, r') = acked in leave o r')
    else exec (quarantine_exec key mid payload error stamp)

unfoldable pub quarantine :
    Codec
    → List Rivals
    → ℕ
    → String
    → String
    → Option String
    → String
    → Redis
    → Outcome (Unit {0}) × Redis
unfolding watching quarantine_attempt quarantine_exec
quarantine c rivals mid payload error known stamp =
    watching watch_retries rivals (raise contended)
      (quarantine_attempt (quarantine_key c known mid) mid payload error stamp)
