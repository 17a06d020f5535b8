-- ===== src/Tests/Queue.antt =====
-- The queue at work on one job, and its theorems at the stores that this passes through.
use cga.Prelude.{
  suc, ◌<◌, ◌∷◌, All, sort_by, ◌≤◌, String, ◌≡◌, ◌≢◌, refl, ◌⊎◌, true, false, none, some, [], arith,
  eq_iff, leb, any, keep, if◌then◌else◌,
}
use cga.Queue.Job.{IndexJob, JobType, Codec, Worker}
use cga.Queue.Status.{
  Hash, is_terminal, is_elsewhere, is_retrying, is_at, attempt_count, done, retrying, failed,
}
use cga.Queue.Redis.{
  Redis, fresh, find_hash, hgetall, get_lease, is_delivered, find_entry, deliver, hset, xadd,
  persist, set_lease, xclaim, sadd, srem, drop_lease,
}
use cga.Queue.Watch.{ok, raise, lease_lost, refused_ack}
use cga.Queue.Ack.{ack, release}
use cga.Queue.Publish.{publish_job}
use cga.Queue.Claim.{set_job_processing, start, heartbeat}
use cga.Queue.Finish.{Stats, clean, is_success, finish, set_job_done, set_job_failed}
use cga.Queue.Fencing.{IsFree, claim_won, old_token_fenced}
use cga.Queue.Publish.Again.{publish-publish}
use cga.Queue.Rounds.{attempts}
use cga.Queue.Consume.{Meanwhile, Batch, consume}
use cga.Queue.Consume.Added.{IsDecoded}
use cga.Queue.Consume.Count.{consume_lem}
use cga.Queue.Rounds.Failing.{failed_round, finished_round}
use cga.Queue.Safety.Invariant.{Belongs, IsKept, IsHeld}
use cga.Queue.Safety.Removal.{Removes}
use cga.Queue.Safety.Acknowledge.{ack_cases}
use cga.Queue.Safety.Steps.{
  Reach, here, next, publish, read, Reach-trans, no_job_lost, lease_protects,
}
use cga.Queue.Safety.Refinement.{set_job_processing-Reach, finish-Reach}

abbrev job : IndexJob
job = record {
  job_id = "j1";
  job_type = JobType.index_full;
  repo_path = "/repos/cga";
  changed_paths = none;
  project_name = some "cga";
  max_attempts = 2;
  created_at = "t0";
}

abbrev codec : Codec
codec = record { dump = λ j. j.job_id; load = λ t. some job; id_text = λ n. "1-0" }

abbrev worker : Worker
worker = record { name = "w1"; lease_ms = 120000 }

abbrev published_store : Redis
published_store = (publish_job codec job "t0" fresh).1

abbrev delivered_store : Redis
delivered_store = deliver "w1" published_store

abbrev claimed_store : Redis
claimed_store = (set_job_processing codec worker [] job 1 "tok" "t1" delivered_store).1

-- What a run of the queue computes through.
opened : Unit {0}
unfolding publish_job find_hash deliver set_job_processing hgetall is_delivered is_elsewhere hset
    xadd persist is_terminal get_lease is_retrying any attempt_count find_entry ack release is_at
    finish set_lease xclaim sadd srem drop_lease keep
opened = tt

published_ok : publish_job codec job "t0" fresh ≡ (ok 1, published_store)
unfolding opened
published_ok = refl

claimed_ok :
    set_job_processing codec worker [] job 1 "tok" "t1" delivered_store
    ≡ (ok (some "tok"), claimed_store)
unfolding opened
claimed_ok = refl

delivered-IsFree : IsFree job 1 delivered_store
unfolding opened
delivered-IsFree = record {
  unleased = refl;
  open_job = refl;
  here = refl;
  delivered = refl;
  budget = omega arith;
}

publish-publish_example : publish_job codec job "t9" published_store ≡ (ok 1, published_store)
publish-publish_example =
    publish-publish codec job "t0" "t9" fresh 1 published_store (unfold opened in refl) published_ok

tok_fresh : ◌≢◌ {A = String} "old" "tok"
tok_fresh = ground (arith, eq_iff "old" "tok")

claim_won_example :
    (◌≡◌ {A = String} "tok" "tok")
    × (get_lease claimed_store 1 ≡ some "tok")
    × ((r0 : Redis) × IsFree job 1 r0
        × (claimed_store ≡ (start codec worker job 1 "tok" "t1" r0).1))
claim_won_example =
    claim_won codec worker job 1 "tok" "t1" [] delivered_store "tok" claimed_store (omega arith)
      claimed_ok

old_token_fenced_example :
    (finish codec [] job 1 "old" none (some "late") "t3" claimed_store
      ≡ (raise lease_lost, claimed_store))
    × (heartbeat worker [] job 1 "old" "t3" claimed_store ≡ (ok false, claimed_store))
old_token_fenced_example =
    old_token_fenced codec worker worker job 1 "tok" "old" "t1" "t3" [] [] delivered_store "tok"
      claimed_store none (some "late") (omega arith) tok_fresh claimed_ok

ack_cases_example :
    (ack 1 "j1" claimed_store ≡ (raise refused_ack, claimed_store))
    ⊎ ((h : Hash) × ((ack 1 "j1" claimed_store).0 ≡ ok tt)
        × Removes claimed_store (ack 1 "j1" claimed_store).1 "j1" h 1)
ack_cases_example = ack_cases 1 "j1" claimed_store

abbrev stats : Stats
stats = record { errors = clean; committed = some true; json = "{}" }

-- Nothing happens meanwhile.
abbrev calm : Meanwhile
calm = record {
  rivals = λ m. [];
  inner = λ m. [];
  stamp = λ m. "t1";
  to_clean = [];
  job_ids = [];
  invalid = λ t. t;
}

abbrev consumed_store : Redis
consumed_store = (consume codec worker calm 1 3000 none published_store).1

abbrev consumed : Batch
consumed = record { jobs = (1, job) ∷ []; cursor = none }

consumed_ok : consume codec worker calm 1 3000 none published_store ≡ (ok consumed, consumed_store)
unfolding opened consume sort_by
consumed_ok = refl

consume_lem_example : (1 < 2) × All (IsDecoded codec worker calm) consumed.jobs
consume_lem_example =
    consume_lem codec worker calm 1 3000 none published_store consumed_store consumed consumed_ok

failed_round_example :
    let (o, s) = set_job_processing codec worker [] job 1 "tok" "t1" delivered_store in
    let (p, t) = set_job_failed codec [] job "boom" 1 "tok" "t2" s in
    (o ≡ ok (some "tok"))
    × (p ≡ ok (if leb 2 (suc (attempts job delivered_store)) then failed else retrying))
    × (attempts job t ≡ suc (attempts job delivered_store))
    × (get_lease t 1 ≡ none)
failed_round_example =
    failed_round codec worker job 1 "tok" "t1" delivered_store "boom" "t2" delivered-IsFree
      (unfold opened in refl) (omega arith)

finished_round_example :
    let (o, s) = set_job_processing codec worker [] job 1 "tok" "t1" delivered_store in
    let (p, t) = set_job_done codec [] job stats 1 "tok" "t2" s in
    (o ≡ ok (some "tok"))
    × (p ≡ ok done)
    × (find_entry t.stream 1 ≡ none)
    × (is_delivered t 1 ≡ false)
    × (get_lease t 1 ≡ none)
finished_round_example =
    finished_round codec worker job 1 "tok" "t1" delivered_store stats "t2" delivered-IsFree
      (unfold opened in refl) (omega arith) (unfold opened is_success in refl)

delivered-Reach : Reach codec fresh delivered_store
delivered-Reach = next (next here (publish job "t0" refl)) (read "w1")

delivered-Belongs : Belongs codec delivered_store 1 "j1"
delivered-Belongs = record {
  only = λ p e. record { payload = p; job = job; stored = e; decoded = refl; named = refl };
}

claimed-Reach : Reach codec fresh claimed_store
claimed-Reach =
    Reach-trans delivered-Reach
      (set_job_processing-Reach codec job 1 "t1" delivered_store worker "tok" delivered-Belongs)

lease_protects_example : IsHeld claimed_store 1
lease_protects_example =
    lease_protects codec claimed_store 1 "tok" claimed-Reach (unfold opened in refl)

no_job_lost_example :
    (q : IsKept codec delivered_store "j1" (hgetall delivered_store "j1"))
    × ((delivered_store.undelivered ≤ q.message) ⊎ (is_delivered delivered_store q.message ≡ true))
no_job_lost_example =
    no_job_lost codec delivered_store "j1" (hgetall delivered_store "j1") delivered-Reach
      (unfold opened in refl) (unfold opened in refl)

set_job_processing-Reach_example : Reach codec delivered_store claimed_store
set_job_processing-Reach_example =
    set_job_processing-Reach codec job 1 "t1" delivered_store worker "tok" delivered-Belongs

finish-Reach_example :
    Reach codec claimed_store (finish codec [] job 1 "tok" none (some "boom") "t2" claimed_store).1
finish-Reach_example =
    finish-Reach codec job 1 "t2" claimed_store "tok" none (some "boom") (record {
      only = λ p e. record { payload = p; job = job; stored = e; decoded = refl; named = refl };
    })
