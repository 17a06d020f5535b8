-- ===== src/Queue/Consume/Added.antt =====
-- What a step of `consume` adds to the messages that it returns.
use cga.Prelude.{
  ℕ, ◌-◌, ◌+◌, ◌≤◌, ◌≡◌, refl, String, Bool, true, false, Option, none, some, List, [], ◌∷◌, ◌++◌,
  arith, length, length-append, leb, All, if◌then◌else◌,
}
use cga.Queue.Job.{IndexJob, Codec, Worker}
use cga.Queue.Redis.{Redis, Delivery, find_entry}
use cga.Queue.Watch.{Outcome, ok, raise}
use cga.Queue.Quarantine.{quarantine}
use cga.Queue.Recover.{recover}
use cga.Queue.Consume.{
  Meanwhile, Batch, known_job, undecoded, decoded, decode, appended, recovered, replay_decoded,
  quarantined, replay_entry, replay_one,
}

module _ (c : Codec) (w : Worker) (e : Meanwhile) where
  -- A job that a payload decodes to.
  abbrev pub IsDecoded : ℕ × IndexJob → Type 0
  IsDecoded (mid, job) = (payload : String) × (c.load payload ≡ some job)

  -- A call that returns adds at most so many messages, all decoded.
  abbrev pub Adds : ℕ → Batch → Outcome Batch × Redis → Type 0
  Adds n b (ok b', r) =
      (length b'.jobs ≤ n + length b.jobs) × (All IsDecoded b.jobs → All IsDecoded b'.jobs)
  Adds n b (raise x, r) = Unit

  abbrev pub Decodes : Outcome (Option IndexJob) × Redis → Type 0
  Decodes (ok none, r) = Unit
  Decodes (ok (some job), r) = (payload : String) × (c.load payload ≡ some job)
  Decodes (raise x, r) = Unit

  undecoded-Decodes : (o : Outcome (Unit {0}) × Redis) → Decodes (undecoded c w e o)
  undecoded-Decodes (ok u, r) = tt
  undecoded-Decodes (raise x, r) = tt

  decoded-Decodes :
      (mid : ℕ) (payload : String) (r : Redis) (o : Option IndexJob)
      → c.load payload ≡ o
      → Decodes (decoded c w e mid payload r o)
  decoded-Decodes mid payload r none h =
      undecoded-Decodes
        (quarantine c (e.rivals mid) mid payload (e.invalid payload) none (e.stamp mid) r)
  decoded-Decodes mid payload r (some job) h = (payload, h)

  pub decode-Decodes :
      (mid : ℕ) (payload : String) (r : Redis) → Decodes (decode c w e mid payload r)
  unfolding decode
  decode-Decodes mid payload r = decoded-Decodes mid payload r (c.load payload) refl

  All-snoc :
      (xs : List (ℕ × IndexJob)) (x : ℕ × IndexJob)
      → All IsDecoded xs
      → IsDecoded x
      → All IsDecoded (xs ++ x ∷ [])
  All-snoc [] x a h = (h, tt)
  All-snoc (y ∷ xs) x (k, a) h = (k, All-snoc xs x a h)

  pub nothing_added : (b : Batch) (r : Redis) → Adds 1 b (ok b, r)
  nothing_added b r = (omega arith, λ a. a)

  pub one_added :
      (mid : ℕ) (job : IndexJob) (b : Batch) (r : Redis)
      → IsDecoded (mid, job)
      → Adds 1 b (ok (appended c w e mid job b), r)
  one_added mid job b r d =
      (omega (arith, length-append b.jobs ((mid, job) ∷ [])), λ a. All-snoc b.jobs (mid, job) a d)

  recovered-Adds :
      (mid : ℕ) (job : IndexJob) (b : Batch) (o : Outcome Bool × Redis)
      → IsDecoded (mid, job)
      → Adds 1 b (recovered c w e mid job b o)
  recovered-Adds mid job b (ok true, r) d = one_added mid job b r d
  recovered-Adds mid job b (ok false, r) d = nothing_added b r
  recovered-Adds mid job b (raise x, r) d = tt

  replay_decoded-Adds :
      (d : Delivery) (idle : ℕ) (b : Batch) (o : Outcome (Option IndexJob) × Redis)
      → Decodes o
      → Adds 1 b (replay_decoded c w e d idle b o)
  replay_decoded-Adds d idle b (ok none, r) h = nothing_added b r
  replay_decoded-Adds d idle b (raise x, r) h = tt
  replay_decoded-Adds d idle b (ok (some job), r) h =
      recovered-Adds d.message_id job b
        (recover c w (e.rivals d.message_id) (e.inner d.message_id) job d.message_id idle
          d.times_delivered w.lease_ms true (e.stamp d.message_id) r)
        h

  quarantined-Adds : (b : Batch) (o : Outcome (Unit {0}) × Redis) → Adds 1 b (quarantined c w e b o)
  quarantined-Adds b (ok u, r) = nothing_added b r
  quarantined-Adds b (raise x, r) = tt

  either :
      (b : Batch) (t : Bool) (o o' : Outcome Batch × Redis)
      → Adds 1 b o
      → Adds 1 b o'
      → Adds 1 b (if t then o else o')
  either b true o o' h k = h
  either b false o o' h k = k

  replay_entry-Adds :
      (d : Delivery) (idle : ℕ) (b : Batch) (r : Redis) (o : Option String)
      → Adds 1 b (replay_entry c w e d idle b r o)
  replay_entry-Adds d idle b r (some payload) =
      replay_decoded-Adds d idle b (decode c w e d.message_id payload r)
        (decode-Decodes d.message_id payload r)
  replay_entry-Adds d idle b r none =
      either b (leb w.lease_ms idle) _ (ok b, r)
        (quarantined-Adds b (
          quarantine c (e.rivals d.message_id) d.message_id "" "Pending stream payload is missing"
            (known_job e.job_ids d.message_id r) (e.stamp d.message_id) r))
        (nothing_added b r)

  pub replay_one-Adds :
      (start : ℕ) (d : Delivery) (b : Batch) (r : Redis) → Adds 1 b (replay_one c w e start d b r)
  unfolding replay_one
  replay_one-Adds start d b r =
      replay_entry-Adds d (start - d.delivered_at) (record b { cursor = some d.message_id }) r
        (find_entry r.stream d.message_id)
