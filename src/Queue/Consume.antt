-- ===== src/Queue/Consume.antt =====
-- `JobConsumer.consume` and `_decode`: pending messages are replayed before new ones are read.
pub mod Added
pub mod Count
use cga.Prelude.{
  ℕ, zero, suc, ◌-◌, ◌+◌, String, Bool, true, false, ◌||◌, Option, none, some, List, [], ◌∷◌, ◌++◌,
  length, take, keep, sort_by, leb, ltb, if◌then◌else◌,
}
use cga.Queue.Job.{IndexJob, Codec, Worker}
use cga.Queue.Status.{Hash, is_at}
use cga.Queue.Redis.{Redis, Delivery, find_hash, find_entry, first_new, deliver}
use cga.Queue.Watch.{Error, invalid, Outcome, ok, raise, Rivals}
use cga.Queue.Ack.{cleanup_finished}
use cga.Queue.Quarantine.{quarantine}
use cga.Queue.Recover.{recover}

-- What a call meets: the rivals of each message's transactions and of the quarantines in them, the instants, the keys that SSCAN
-- and SCAN return, and the text of an invalid payload's exception.
pub record Meanwhile : Type 0 where
  pub rivals : ℕ → List Rivals
  pub inner : ℕ → List Rivals
  pub stamp : ℕ → String
  pub to_clean : List String
  pub job_ids : List String
  pub invalid : String → String

-- The messages that a call returns so far, and the cursor of its consumer: `none` is "-", and `some m` is after `m`.
pub record Batch : Type 0 where
  pub jobs : List (ℕ × IndexJob)
  pub cursor : Option ℕ

abbrev is_after : Option ℕ → ℕ → Bool
is_after none m = true
is_after (some c) m = ltb c m

abbrev by_message : Delivery → Delivery → Bool
by_message a b = leb a.message_id b.message_id

abbrev recovery_batch_size : ℕ
recovery_batch_size = 100

-- XPENDING from the cursor on, in the order of the IDs.
unfoldable pub xpending_range : Option ℕ → Redis → List Delivery
xpending_range cursor r =
    take recovery_batch_size
      (sort_by by_message (keep (λ d. is_after cursor d.message_id) r.deliveries))

-- Whether a status is that of a message.
abbrev holds_message : Option Hash → ℕ → Bool
holds_message none mid = false
holds_message (some h) mid = is_at h mid

abbrev job_id_or : String → Option String → String
job_id_or key none = key
job_id_or key (some id) = id

abbrev known_id : String → Option Hash → Option String
known_id key none = some key
known_id key (some h) = some (job_id_or key h.job_id)

-- The first status with the message, among those of SCAN: its job ID.
unfoldable pub known_job : List String → ℕ → Redis → Option String
unfolding find_hash is_at
known_job [] mid r = none
known_job (key ∷ keys) mid r =
    let rest = known_job keys mid r in
    if holds_message (find_hash r key) mid then known_id key (find_hash r key) else rest

module _ (c : Codec) (w : Worker) (e : Meanwhile) where
  abbrev undecoded : Outcome (Unit {0}) × Redis → Outcome (Option IndexJob) × Redis
  undecoded (ok u, r) = (ok none, r)
  undecoded (raise x, r) = (raise x, r)

  abbrev decoded : ℕ → String → Redis → Option IndexJob → Outcome (Option IndexJob) × Redis
  decoded mid payload r (some job) = (ok (some job), r)
  decoded mid payload r none =
      undecoded (quarantine c (e.rivals mid) mid payload (e.invalid payload) none (e.stamp mid) r)

  -- `_decode`
  unfoldable pub decode : ℕ → String → Redis → Outcome (Option IndexJob) × Redis
  unfolding quarantine
  decode mid payload r = decoded mid payload r (c.load payload)

  abbrev pub appended : ℕ → IndexJob → Batch → Batch
  appended mid job b = record b { jobs = b.jobs ++ (mid, job) ∷ [] }

  abbrev pub recovered : ℕ → IndexJob → Batch → Outcome Bool × Redis → Outcome Batch × Redis
  recovered mid job b (ok true, r) = (ok (appended mid job b), r)
  recovered mid job b (ok false, r) = (ok b, r)
  recovered mid job b (raise x, r) = (raise x, r)

  abbrev pub replay_decoded :
      Delivery → ℕ → Batch → Outcome (Option IndexJob) × Redis → Outcome Batch × Redis
  replay_decoded d idle b (ok none, r) = (ok b, r)
  replay_decoded d idle b (raise x, r) = (raise x, r)
  replay_decoded d idle b (ok (some job), r) = recovered d.message_id job b (
      recover c w (e.rivals d.message_id) (e.inner d.message_id) job d.message_id idle
        d.times_delivered w.lease_ms true (e.stamp d.message_id) r)

  abbrev quarantined : Batch → Outcome (Unit {0}) × Redis → Outcome Batch × Redis
  quarantined b (ok u, r) = (ok b, r)
  quarantined b (raise x, r) = (raise x, r)

  -- A pending message whose entry is there, or not.
  abbrev pub replay_entry : Delivery → ℕ → Batch → Redis → Option String → Outcome Batch × Redis
  replay_entry d idle b r (some payload) = replay_decoded d idle b (decode d.message_id payload r)
  replay_entry d idle b r none =
      if leb w.lease_ms idle
      then quarantined b (
          quarantine c (e.rivals d.message_id) d.message_id "" "Pending stream payload is missing"
            (known_job e.job_ids d.message_id r) (e.stamp d.message_id) r)
      else (ok b, r)

  -- One pending message; `start` is the instant of XPENDING.
  unfoldable pub replay_one : ℕ → Delivery → Batch → Redis → Outcome Batch × Redis
  unfolding decode recover known_job
  replay_one start d b r =
      replay_entry d (start - d.delivered_at) (record b { cursor = some d.message_id }) r
        (find_entry r.stream d.message_id)

  -- The loop over the page of pending messages; it ends when `count` are found.
  abbrev is_last : List Delivery → Bool
  is_last [] = true
  is_last (d ∷ ds) = false

  abbrev rewound : Bool → Batch → Batch
  rewound true b = record b { cursor = none }
  rewound false b = b

  -- A batch, and whether it is to be returned at once.
  abbrev pub go_on :
      (Batch → Redis → Outcome (Bool × Batch) × Redis)
      → ℕ
      → Bool
      → Outcome Batch × Redis
      → Outcome (Bool × Batch) × Redis
  go_on rest count back (raise x, r) = (raise x, r)
  go_on rest count back (ok b, r) = elim (leb count (length b.jobs)) [
    | true ↦ (ok (true, rewound back b), r)
    | false ↦ rest b r
  ]

  unfoldable pub replay :
      ℕ → ℕ → Bool → List Delivery → Batch → Redis → Outcome (Bool × Batch) × Redis
  unfolding replay_one
  replay start count short [] b r = (ok (false, rewound short b), r)
  replay start count short (d ∷ ds) b r =
      go_on (replay start count short ds) count (if is_last ds then short else false)
        (replay_one start d b r)

  -- The new messages of XREADGROUP, at most so many.
  abbrev pub read_decoded : ℕ → Batch → Outcome (Option IndexJob) × Redis → Outcome Batch × Redis
  read_decoded mid b (ok none, r) = (ok b, r)
  read_decoded mid b (ok (some job), r) = (ok (appended mid job b), r)
  read_decoded mid b (raise x, r) = (raise x, r)

  abbrev read_payload : ℕ → Batch → Redis → Option String → Outcome Batch × Redis
  read_payload mid b r none = (ok b, r)
  read_payload mid b r (some payload) = read_decoded mid b (decode mid payload r)

  unfoldable pub read_one : ℕ → Batch → Redis → Outcome Batch × Redis
  unfolding decode find_entry
  read_one mid b r = read_payload mid b r (find_entry r.stream mid)

  abbrev pub read_on :
      (Batch → Redis → Outcome Batch × Redis) → Outcome Batch × Redis → Outcome Batch × Redis
  read_on rest (ok b, r) = rest b r
  read_on rest (raise x, r) = (raise x, r)

  unfoldable pub read_all : List ℕ → Batch → Redis → Outcome Batch × Redis
  unfolding read_one
  read_all [] b r = (ok b, r)
  read_all (mid ∷ mids) b r = read_on (read_all mids) (read_one mid b r)

  -- XREADGROUP: the IDs of the new entries, at most so many, which are pending from then on.
  unfoldable pub xreadgroup : ℕ → Redis → List ℕ × Redis
  unfolding first_new deliver
  xreadgroup zero r = ([], r)
  xreadgroup (suc n) r = elim (first_new r.undelivered r.stream) [
    | none ↦ ([], r)
    | some i ↦ let (ids, r') = xreadgroup n (deliver w.name r) in (i ∷ ids, r')
  ]

  abbrev pub read_new : ℕ → Batch → List ℕ × Redis → Outcome Batch × Redis
  read_new count b (ids, r) = read_all ids b r

  abbrev pub after_replay : ℕ → Outcome (Bool × Batch) × Redis → Outcome Batch × Redis
  after_replay count (ok (true, b), r) = (ok b, r)
  after_replay count (ok (false, b), r) = read_new count b (xreadgroup count r)
  after_replay count (raise x, r) = (raise x, r)

  abbrev pub after_cleanup : ℕ → Option ℕ → Outcome (Unit {0}) × Redis → Outcome Batch × Redis
  after_cleanup count cursor (raise x, r) = (raise x, r)
  after_cleanup count cursor (ok u, r) =
      let pending = xpending_range cursor r in
      after_replay count (
        replay r.now count (ltb (length pending) recovery_batch_size) pending
          (record { jobs = []; cursor = cursor }) r)

  -- `consume`; the new entries are those that the stream has when it reads.
  unfoldable pub consume : ℕ → ℕ → Option ℕ → Redis → Outcome Batch × Redis
  unfolding cleanup_finished xpending_range replay xreadgroup read_all
  consume count block_ms cursor r =
      if ltb count 1 || ltb block_ms 1
      then (raise (invalid "count and block_ms must be positive"), r)
      else after_cleanup count cursor (cleanup_finished e.to_clean r)
