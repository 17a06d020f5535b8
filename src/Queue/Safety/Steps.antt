-- ===== src/Queue/Safety/Steps.antt =====
-- The queue as a transition system: its steps are publications, the transactions of claims, renewals, finishes and
-- recoveries, `ack`, deliveries, and the passing of time. `ack` is one step, though the code sends its commands one by
-- one; quarantine and cleanup are no steps.
use cga.Prelude.{
  ℕ, String, ◌≡◌, refl, sym, ◌∙◌, ◌⊎◌, inl, inr, true, false, Option, none, some, ◌≤◌,
}
use cga.Queue.Job.{IndexJob, Codec, Worker}
use cga.Queue.Status.{Hash, is_terminal, is_elsewhere}
use cga.Queue.Redis.{
  Redis, fresh, find_hash, hgetall, find_entry, get_lease, is_delivered, sadd, srem, xclaim,
  deliver, tick,
}
use cga.Queue.Redis.Effects.{any-reassign}
use cga.Queue.Ack.{ack}
use cga.Queue.Publish.{publish_job}
use cga.Queue.Claim.{start, store_burial, renew}
use cga.Queue.Finish.{Stats, store_finish}
use cga.Queue.Recover.{store_recovery}
use cga.Queue.Safety.Invariant.{Carries, Belongs, IsKept, IsHeld, IsSound, fresh-IsSound}
use cga.Queue.Safety.Handlers.{
  start-IsSound, store_burial-IsSound, store_recovery-IsSound, store_finish-IsSound, renew-IsSound,
}
use cga.Queue.Safety.Acknowledge.{ack-IsSound}
use cga.Queue.Safety.Arrival.{tick-IsSound, deliver-IsSound}
use cga.Queue.Safety.Publication.{publish_job-IsSound}

-- The guards are those that the handlers test at the store that the transaction meets, with two that they do not test:
-- a worker acts for the job that it read from its message (`Belongs`), and `revive` takes it that the message still
-- stands in the stream (`Carries`), which `_recover` has from the entry that it was given.
pub data Step (c : Codec) (r : Redis) : Redis → Type 0 where
  publish :
      (job : IndexJob) (stamp : String)
      → c.load (c.dump job) ≡ some job
      → Step c r (publish_job c job stamp r).1
  begin :
      (w : Worker) (job : IndexJob) (m : ℕ) (token stamp : String)
      → is_delivered r m ≡ true
      → is_elsewhere (hgetall r job.job_id) m ≡ false
      → Belongs c r m job.job_id
      → Step c r (start c w job m token stamp r).1
  exhaust :
      (job : IndexJob) (m : ℕ) (stamp : String)
      → get_lease r m ≡ none
      → is_delivered r m ≡ true
      → is_elsewhere (hgetall r job.job_id) m ≡ false
      → Belongs c r m job.job_id
      → Step c r (store_burial c job m stamp r)
  beat :
      (w : Worker) (job : IndexJob) (m : ℕ) (token stamp : String)
      → get_lease r m ≡ some token
      → Belongs c r m job.job_id
      → Step c r (renew w job m stamp r).1
  conclude :
      (job : IndexJob) (m : ℕ) (token : String) (stats : Option Stats) (error : Option String)
      (stamp : String)
      → get_lease r m ≡ some token
      → Belongs c r m job.job_id
      → Step c r (store_finish c job m stats error stamp r)
  revive :
      (job : IndexJob) (m times : ℕ) (stamp : String)
      → get_lease r m ≡ none
      → is_elsewhere (hgetall r job.job_id) m ≡ false
      → Carries c r m job.job_id
      → Step c r (store_recovery c job m times stamp r)
  acknowledge : (m : ℕ) (k : String) → Step c r (ack m k r).1
  claim : (m : ℕ) (name : String) → Step c r (xclaim m name r)
  mark : (k : String) → Step c r (sadd k r)
  unmark : (k : String) → Step c r (srem k r)
  read : (name : String) → Step c r (deliver name r)
  wait : (ms : ℕ) → Step c r (tick ms r)

pub data Reach (c : Codec) (r : Redis) : Redis → Type 0 where
  here : Reach c r r
  next : {s t : Redis} → Reach c r s → Step c s t → Reach c r t

pub Reach-trans : {c : Codec} {r s t : Redis} → Reach c r s → Reach c s t → Reach c r t
Reach-trans q here = q
Reach-trans q (next p st) = next (Reach-trans q p) st

-- Stores that no part of the invariant tells apart.
record Alike (r s : Redis) : Type 0 where
  hashes : (k : String) → find_hash s k ≡ find_hash r k
  expiry : (k : String) → s.expiry k ≡ r.expiry k
  stream : s.stream ≡ r.stream
  next_id : s.next_id ≡ r.next_id
  undelivered : s.undelivered ≡ r.undelivered
  delivered : (m : ℕ) → is_delivered s m ≡ is_delivered r m
  leases : (m : ℕ) → get_lease s m ≡ get_lease r m

module _ {c : Codec} {r s : Redis} (a : Alike r s) (i : IsSound c r) where
  Carries-alike : (m : ℕ) (k : String) → Carries c r m k → Carries c s m k
  Carries-alike m k q = record {
    payload = q.payload;
    job = q.job;
    stored = rw a.stream q.stored;
    decoded = q.decoded;
    named = q.named;
  }

  Alike-IsSound : IsSound c s
  Alike-IsSound = record {
    below = λ m p e. rw a.next_id (i.below m p (rw (← a.stream) e));
    handed = rw (a.next_id) (subst_le (sym a.undelivered) i.handed);
    named_below = λ k h m e l. rw a.next_id (i.named_below k h m (sym (a.hashes k) ∙ e) l);
    kept = λ k h e open_job.
        let q = i.kept k h (sym (a.hashes k) ∙ e) open_job in
        record {
          message = q.message;
          linked = q.linked;
          carried = Carries-alike q.message k q.carried;
          lasting = a.expiry k ∙ q.lasting;
        };
    keyed = λ k h m p e l q.
        Carries-alike m k (i.keyed k h m p (sym (a.hashes k) ∙ e) l (rw (← a.stream) q));
    held = λ m t e.
        let q = i.held m t (sym (a.leases m) ∙ e) in
        record {
          key = q.key;
          status = q.status;
          at = a.hashes q.key ∙ q.at;
          open_job = q.open_job;
          linked = q.linked;
        };
    reachable = reachable_alike;
    present = λ m e. rw a.stream (i.present m (sym (a.delivered m) ∙ e));
  }
    where
      subst_le : {x y : ℕ} → x ≡ y → x ≤ r.next_id → y ≤ r.next_id
      subst_le e h = rw (← e) h

      reachable_alike :
          (m : ℕ) (p : String)
          → find_entry s.stream m ≡ some p
          → (s.undelivered ≤ m) ⊎ (is_delivered s m ≡ true)
      reachable_alike m p e = elim (i.reachable m p (rw (← a.stream) e)) [
        | inl new ↦ inl (subst_new new)
        | inr old ↦ inr (a.delivered m ∙ old)
      ]
        where
          subst_new : r.undelivered ≤ m → s.undelivered ≤ m
          subst_new h = rw a.undelivered h

-- Each step keeps the invariant.
pub Step-IsSound : {c : Codec} {r s : Redis} → Step c r s → IsSound c r → IsSound c s
Step-IsSound (publish job stamp d) i = publish_job-IsSound i job stamp d
Step-IsSound {c} (begin w job m token stamp d h b) i = start-IsSound c i job m w token stamp d h b
Step-IsSound {c} (exhaust job m stamp f d h b) i = store_burial-IsSound c i job m stamp f d h b
Step-IsSound {c} (beat w job m token stamp e b) i = renew-IsSound c i job m w token stamp e b
Step-IsSound {c} (conclude job m token stats error stamp e b) i =
    store_finish-IsSound c i job m token stats error stamp e b
Step-IsSound {c} (revive job m times stamp f h q) i =
    store_recovery-IsSound c i job m times stamp f h q
Step-IsSound (acknowledge m k) i = ack-IsSound m k i
Step-IsSound {r = r} (claim m name) i = Alike-IsSound (claimed r m name) i
  where
    claimed : (r : Redis) (m : ℕ) (name : String) → Alike r (xclaim m name r)
    claimed r m name = record {
      hashes = λ k. unfold xclaim find_hash in refl;
      expiry = λ k. unfold xclaim in refl;
      stream = unfold xclaim in refl;
      next_id = unfold xclaim in refl;
      undelivered = unfold xclaim in refl;
      delivered = λ n. unfold xclaim is_delivered in any-reassign m n r.now name r.deliveries;
      leases = λ n. unfold xclaim get_lease in refl;
    }
Step-IsSound {r = r} (mark k) i = Alike-IsSound (marked r k) i
  where
    marked : (r : Redis) (k : String) → Alike r (sadd k r)
    marked r k = record {
      hashes = λ j. unfold sadd find_hash in refl;
      expiry = λ j. unfold sadd in refl;
      stream = unfold sadd in refl;
      next_id = unfold sadd in refl;
      undelivered = unfold sadd in refl;
      delivered = λ n. unfold sadd is_delivered in refl;
      leases = λ n. unfold sadd get_lease in refl;
    }
Step-IsSound {r = r} (unmark k) i = Alike-IsSound (unmarked r k) i
  where
    unmarked : (r : Redis) (k : String) → Alike r (srem k r)
    unmarked r k = record {
      hashes = λ j. unfold srem find_hash in refl;
      expiry = λ j. unfold srem in refl;
      stream = unfold srem in refl;
      next_id = unfold srem in refl;
      undelivered = unfold srem in refl;
      delivered = λ n. unfold srem is_delivered in refl;
      leases = λ n. unfold srem get_lease in refl;
    }
Step-IsSound (read name) i = deliver-IsSound i name
Step-IsSound (wait ms) i = tick-IsSound i ms

pub Reach-IsSound : {c : Codec} {r s : Redis} → Reach c r s → IsSound c r → IsSound c s
Reach-IsSound here i = i
Reach-IsSound (next q st) i = Step-IsSound st (Reach-IsSound q i)

-- No unfinished job is ever lost: in every store that the queue reaches from an empty one, a status
-- that is not terminal is linked to a message that is in the stream, that validates to a job of this
-- very ID, and that the group will still hand out or has pending; and the status does not expire.
pub no_job_lost :
    (c : Codec) (r : Redis) (k : String) (h : Hash)
    → Reach c fresh r
    → find_hash r k ≡ some h
    → is_terminal h ≡ false
    → (q : IsKept c r k h) × ((r.undelivered ≤ q.message) ⊎ (is_delivered r q.message ≡ true))
no_job_lost c r k h reach e open_job =
    let i = Reach-IsSound reach (fresh-IsSound c) in
    let q = i.kept k h e open_job in (q, i.reachable q.message q.carried.payload q.carried.stored)

-- In every store that the queue reaches from an empty one, a live lease on a message belongs to a
-- job whose status is not terminal and is linked to this message.
pub lease_protects :
    (c : Codec) (r : Redis) (m : ℕ) (t : String)
    → Reach c fresh r
    → get_lease r m ≡ some t
    → IsHeld r m
lease_protects c r m t reach e = (Reach-IsSound reach (fresh-IsSound c)).held m t e
