-- ===== src/Queue/Safety/Arrival.antt =====
-- Deliveries and the passing of time keep the store sound.
use cga.Prelude.{
  ℕ, suc, ◌≤◌, String, ◌≡◌, ◌⊎◌, inl, inr, true, ◌||◌, none, some, arith, ◌==◌, Bool-cases,
  Option-cases,
}
use cga.Queue.Job.{Codec}
use cga.Queue.Status.{Hash}
use cga.Queue.Redis.{
  Redis, find_hash, find_entry, get_lease, is_delivered, first_new, deliver, hand_out, tick,
}
use cga.Queue.Redis.Effects.{any-append, first_new_found, first_new_least}
use cga.Queue.Safety.Invariant.{Carries, IsSound}

module _ {c : Codec} {r : Redis} (i : IsSound c r) where
  tick_hash :
      (ms : ℕ) (k : String) (h : Hash) → find_hash (tick ms r) k ≡ some h → find_hash r k ≡ some h
  unfolding tick find_hash
  tick_hash ms k h e = ground arith

  tick_lease : (ms m : ℕ) (t : String) → get_lease (tick ms r) m ≡ some t → get_lease r m ≡ some t
  unfolding tick get_lease
  tick_lease ms m t e = ground arith

  lasting_hash :
      (ms : ℕ) (k : String) (h : Hash)
      → find_hash r k ≡ some h
      → r.expiry k ≡ none
      → find_hash (tick ms r) k ≡ some h
  unfolding tick find_hash
  lasting_hash ms k h e l = ground arith

  Carries-tick : (ms m : ℕ) (k : String) → Carries c r m k → Carries c (tick ms r) m k
  unfolding tick
  Carries-tick ms m k q = record {
    payload = q.payload;
    job = q.job;
    stored = q.stored;
    decoded = q.decoded;
    named = q.named;
  }

  -- Statuses and leases may expire, but no status of an unfinished job does.
  pub tick-IsSound : (ms : ℕ) → IsSound c (tick ms r)
  tick-IsSound ms = record {
    below = unfold tick in i.below;
    handed = unfold tick in i.handed;
    named_below = λ k h m e. unfold tick in i.named_below k h m (tick_hash ms k h e);
    kept = λ k h e open_job.
        let q = i.kept k h (tick_hash ms k h e) open_job in
        record {
          message = q.message;
          linked = q.linked;
          carried = Carries-tick ms q.message k q.carried;
          lasting = unfold tick in q.lasting;
        };
    keyed = λ k h m p e l s.
        Carries-tick ms m k (i.keyed k h m p (tick_hash ms k h e) l (unfold tick in s));
    held = λ m t e.
        let q = i.held m t (tick_lease ms m t e) in
        record {
          key = q.key;
          status = q.status;
          at = lasting_hash ms q.key q.status q.at (i.kept q.key q.status q.at q.open_job).lasting;
          open_job = q.open_job;
          linked = q.linked;
        };
    reachable = unfold tick is_delivered in i.reachable;
    present = unfold tick is_delivered in i.present;
  }

  -- Handing out the entry `m`, which is the first new one.
  module _ (name : String) (m : ℕ) (first : first_new r.undelivered r.stream ≡ some m) where
    handed_delivery :
        (n : ℕ) → is_delivered (hand_out (some m) name r) n ≡ is_delivered r n || (m == n)
    unfolding is_delivered
    handed_delivery n = any-append n r.deliveries _

    reachable_handed :
        (n : ℕ) (p : String)
        → find_entry r.stream n ≡ some p
        → (suc m ≤ n) ⊎ (is_delivered (hand_out (some m) name r) n ≡ true)
    reachable_handed n p e = elim (i.reachable n p e) [
      | inl new ↦
          let early = first_new_least r.undelivered r.stream n m p e new first in
          elim (Bool-cases (m == n)) [
            | inl same ↦ inr (ground (arith, handed_delivery n))
            | inr other ↦ inl (ground arith)
          ]
      | inr old ↦ inr (ground (arith, handed_delivery n))
    ]

    present_handed :
        (n : ℕ)
        → is_delivered (hand_out (some m) name r) n ≡ true
        → (p : String) × (find_entry r.stream n ≡ some p)
    present_handed n e = elim (Bool-cases (is_delivered r n)) [
      | inl old ↦ i.present n old
      | inr new ↦
          let (p, found, late) = first_new_found r.undelivered r.stream m first in
          let same : m ≡ n = ground (arith, handed_delivery n) in (p, rw (← same) found)
    ]

    hand_out-IsSound : IsSound c (hand_out (some m) name r)
    hand_out-IsSound =
        let (q, found, late) = first_new_found r.undelivered r.stream m first in
        record {
          below = i.below;
          handed = i.below m q found;
          named_below = λ k h n e. i.named_below k h n (unfold find_hash in e);
          kept = λ k h e open_job.
              let w = i.kept k h (unfold find_hash in e) open_job in
              record {
                message = w.message;
                linked = w.linked;
                carried = Carries-same w.message k w.carried;
                lasting = w.lasting;
              };
          keyed = λ k h n p e l s. Carries-same n k (i.keyed k h n p (unfold find_hash in e) l s);
          held = λ n t e.
              let w = i.held n t (unfold get_lease in e) in
              record {
                key = w.key;
                status = w.status;
                at = unfold find_hash in w.at;
                open_job = w.open_job;
                linked = w.linked;
              };
          reachable = reachable_handed;
          present = present_handed;
        }
      where
        Carries-same :
            (n : ℕ) (k : String) → Carries c r n k → Carries c (hand_out (some m) name r) n k
        Carries-same n k w = record {
          payload = w.payload;
          job = w.job;
          stored = w.stored;
          decoded = w.decoded;
          named = w.named;
        }

  pub deliver-IsSound : (name : String) → IsSound c (deliver name r)
  unfolding deliver
  deliver-IsSound name = elim (Option-cases (first_new r.undelivered r.stream)) [
    | inl nothing ↦ rw (nothing, hand_out) i
    | inr (m, first) ↦ rw (first, hand_out) (hand_out-IsSound name m first)
  ]
