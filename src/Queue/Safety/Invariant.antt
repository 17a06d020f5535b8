-- ===== src/Queue/Safety/Invariant.antt =====
-- The invariant of the queue's store.
use cga.Prelude.{ℕ, ◌≤◌, ◌<◌, String, ◌≡◌, ◌⊎◌, true, false, none, some, any, arith}
use cga.Queue.Job.{IndexJob, Codec}
use cga.Queue.Status.{Hash, entry, is_terminal}
use cga.Queue.Redis.{Redis, fresh, find_hash, find_entry, get_lease, is_delivered}

-- The stream entry `m` holds a payload that validates to a job with the ID `k`.
pub record Carries (c : Codec) (r : Redis) (m : ℕ) (k : String) : Type 0 where
  pub payload : String
  pub job : IndexJob
  pub stored : find_entry r.stream m ≡ some payload
  pub decoded : c.load payload ≡ some job
  pub named : job.job_id ≡ k

-- An unfinished job: its message is in the stream, with a payload that names it.
pub record IsKept (c : Codec) (r : Redis) (k : String) (h : Hash) : Type 0 where
  pub message : ℕ
  pub linked : h.stream_id ≡ some (entry message)
  pub carried : Carries c r message k
  pub lasting : r.expiry k ≡ none

-- An entry carries one job.
pub Carries-unique :
    {c : Codec} {r : Redis} {m : ℕ} {j k : String} → Carries c r m j → Carries c r m k → j ≡ k
Carries-unique a b = cc (a.stored, b.stored, a.decoded, b.decoded, a.named, b.named)

-- The stream entry `m`, if it is there still, carries the job `k`: what a worker knows that read it.
pub record Belongs (c : Codec) (r : Redis) (m : ℕ) (k : String) : Type 0 where
  pub only : (p : String) → find_entry r.stream m ≡ some p → Carries c r m k

-- The job that a live lease protects.
pub record IsHeld (r : Redis) (m : ℕ) : Type 0 where
  pub key : String
  pub status : Hash
  pub at : find_hash r key ≡ some status
  pub open_job : is_terminal status ≡ false
  pub linked : status.stream_id ≡ some (entry m)

pub record IsSound (c : Codec) (r : Redis) : Type 0 where
  -- stream IDs are below the next one
  pub below : (m : ℕ) (p : String) → find_entry r.stream m ≡ some p → m < r.next_id
  -- and so is where the group's new entries begin
  pub handed : r.undelivered ≤ r.next_id
  -- so are the IDs that the statuses name
  pub named_below :
      (k : String) (h : Hash) (m : ℕ)
      → find_hash r k ≡ some h
      → h.stream_id ≡ some (entry m)
      → m < r.next_id
  -- a job that is not terminal has its message in the stream, and its status does not expire
  pub kept :
      (k : String) (h : Hash) → find_hash r k ≡ some h → is_terminal h ≡ false → IsKept c r k h
  -- a message that a status names, and that is there still, carries that status's job
  pub keyed :
      (k : String) (h : Hash) (m : ℕ) (p : String)
      → find_hash r k ≡ some h
      → h.stream_id ≡ some (entry m)
      → find_entry r.stream m ≡ some p
      → Carries c r m k
  -- a live lease belongs to a job that is not terminal
  pub held : (m : ℕ) (t : String) → get_lease r m ≡ some t → IsHeld r m
  -- a message in the stream is new to the group, or pending in it
  pub reachable :
      (m : ℕ) (p : String)
      → find_entry r.stream m ≡ some p
      → (r.undelivered ≤ m) ⊎ (is_delivered r m ≡ true)
  -- and what is pending is in the stream
  pub present : (m : ℕ) → is_delivered r m ≡ true → (p : String) × (find_entry r.stream m ≡ some p)

pub fresh-IsSound : (c : Codec) → IsSound c fresh
unfolding find_hash find_entry get_lease is_delivered any
fresh-IsSound c = record {
  below = λ m p e. cc;
  handed = omega arith;
  named_below = λ k h m e. cc;
  kept = λ k h e. cc;
  keyed = λ k h m p e. cc;
  held = λ m t e. cc;
  reachable = λ m p e. cc;
  present = λ m e. cc;
}
