-- ===== src/Queue/Ack.antt =====
-- `ack` and `_cleanup_finished`: the end of a message, once its job has a terminal status.
use cga.Prelude.{
  ℕ, ◌*◌, String, Bool, true, false, Option, none, some, List, [], ◌∷◌, if◌then◌else◌,
}
use cga.Queue.Status.{Hash, Phase, done, IdText, entry, blank, garbled, is_terminal, is_at}
use cga.Queue.Redis.{Redis, find_hash, hgetall, persist, expire, sadd, srem, xack, xdel}
use cga.Queue.Watch.{Outcome, ok, raise, refused_ack, expired_before_ack, invalid_id}

abbrev pub status_ttl_ms : ℕ
status_ttl_ms = 7 * 24 * 60 * 60 * 1000

abbrev is_done : Option Phase → Bool
is_done (some done) = true
is_done _ = false

-- A success expires after seven days; a dead letter stays.
unfoldable pub expire_success : Hash → String → Redis → Redis
expire_success h k r = if is_done h.status then expire k status_ttl_ms r else r

-- What `ack` does once its checks have passed.
unfoldable pub release : Hash → ℕ → String → Redis → Redis
unfolding expire_success
release h mid k r = srem k (expire_success h k (xdel mid (xack mid (sadd k r))))

-- Its commands are sent one by one, and this is their sequence without anybody between them.
unfoldable pub ack : ℕ → String → Redis → Outcome (Unit {0}) × Redis
unfolding release
ack mid job_id r =
    let status = hgetall r job_id in
    let r' = persist job_id r in
    if is_terminal status
    then (if is_at status mid
        then (if is_terminal (hgetall r' job_id)
            then (ok tt, release status mid job_id r')
            else (raise expired_before_ack, r'))
        else (raise refused_ack, r))
    else (raise refused_ack, r)

-- The result of an operation that ends in an `ack`.
abbrev pub after_ack : {A : Type 0} → A → Outcome (Unit {0}) × Redis → Outcome A × Redis
after_ack a (ok u, r) = (ok a, r)
after_ack a (raise e, r) = (raise e, r)

abbrev pub message_of : Option IdText → Option ℕ
message_of (some (entry n)) = some n
message_of _ = none

-- One job of the cleanup set. With a `stream_id` that is no ID of an entry (`garbled`) `ack` passes its own checks and
-- fails at XACK, after PERSIST and SADD.
abbrev clean_terminal : Option IdText → String → Redis → Outcome (Unit {0}) × Redis
clean_terminal none k r = (ok tt, r)
clean_terminal (some blank) k r = (ok tt, r)
clean_terminal (some (entry n)) k r = ack n k r
clean_terminal (some garbled) k r =
    let r' = persist k r in
    if is_terminal (hgetall r' k)
    then (raise invalid_id, sadd k r')
    else (raise expired_before_ack, r')

abbrev clean_hash : Option Hash → String → Redis → Outcome (Unit {0}) × Redis
clean_hash none k r = (ok tt, srem k r)
clean_hash (some h) k r = if is_terminal h then clean_terminal h.stream_id k r else (ok tt, r)

unfoldable pub clean_one : String → Redis → Outcome (Unit {0}) × Redis
clean_one k r = clean_hash (find_hash r k) k r

abbrev and_then :
    Outcome (Unit {0}) × Redis → (Redis → Outcome (Unit {0}) × Redis) → Outcome (Unit {0}) × Redis
and_then (ok u, r) f = f r
and_then (raise e, r) f = (raise e, r)

-- `_cleanup_finished` over the job IDs that SSCAN returned.
unfoldable pub cleanup_finished : List String → Redis → Outcome (Unit {0}) × Redis
unfolding clean_one
cleanup_finished [] r = (ok tt, r)
cleanup_finished (k ∷ ks) r = and_then (clean_one k r) (cleanup_finished ks)
