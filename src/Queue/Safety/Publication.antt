-- ===== src/Queue/Safety/Publication.antt =====
-- A publication keeps the store sound.
use cga.Prelude.{
  ℕ, suc, ◌≤◌, ◌<◌, String, ◌≡◌, refl, sym, ◌∙◌, ◌⊎◌, inl, inr, true, false, none, some, arith,
  eq_iff, eq_refl, str_eq, ◌==◌, Bool-cases, Option-cases, if◌then◌else◌, ==-eq, ==-refl,
}
use cga.Queue.Job.{IndexJob, Codec}
use cga.Queue.Status.{Hash, entry, is_terminal}
use cga.Queue.Redis.{Redis, find_hash, find_entry, get_lease, is_delivered, hset, persist, xadd}
use cga.Queue.Redis.Effects.{find_entry-append}
use cga.Queue.Publish.{publish_new, publish_job}
use cga.Queue.Publish.Again.{
  published, published_fields, find_hash-publish_new, publish_job-new, publish_job-taken,
  republish_unchanged,
}
use cga.Queue.Safety.Invariant.{Carries, IsKept, IsHeld, IsSound}

module _ {c : Codec} {r : Redis} (i : IsSound c r) where
  not_stored : (m : ℕ) → r.next_id ≤ m → find_entry r.stream m ≡ none
  not_stored m h = elim (Option-cases (find_entry r.stream m)) [
    | inl e ↦ e
    | inr (p, e) ↦ absurd (omega (arith, i.below m p e))
  ]

  -- A new publication under an ID that is free.
  module _ (job : IndexJob) (stamp : String) (decoded : c.load (c.dump job) ≡ some job)
      (free : find_hash r job.job_id ≡ none) where
    abbrev after : Redis
    after = (publish_new c job stamp r).1

    stream_after :
        (n : ℕ)
        → find_entry after.stream n
          ≡ (if n == r.next_id then some (c.dump job) else find_entry r.stream n)
    unfolding publish_new hset persist xadd
    stream_after n =
        find_entry-append r.stream r.next_id n (c.dump job) (not_stored r.next_id (omega arith))

    Carries-after : (n : ℕ) (k : String) → Carries c r n k → Carries c after n k
    Carries-after n k q = record {
      payload = q.payload;
      job = q.job;
      stored = ground (arith, stream_after n, q.stored, i.below n q.payload q.stored);
      decoded = q.decoded;
      named = q.named;
    }

    new-Carries : Carries c after r.next_id job.job_id
    new-Carries = record {
      payload = c.dump job;
      job = job;
      stored = stream_after r.next_id ∙ rw ==-refl;
      decoded = decoded;
      named = refl;
    }

    new_job :
        (k : String) (h : Hash)
        → find_hash after k ≡ some h
        → str_eq k job.job_id ≡ true
        → (k ≡ job.job_id) × (h ≡ published c job stamp r)
    new_job k h e same = ground (arith, find_hash-publish_new c job stamp r k, eq_iff k job.job_id)

    old_job :
        (k : String) (h : Hash)
        → find_hash after k ≡ some h
        → str_eq k job.job_id ≡ false
        → find_hash r k ≡ some h
    old_job k h e other = ground (arith, find_hash-publish_new c job stamp r k)

    fields :
        ((published c job stamp r).stream_id ≡ some (entry r.next_id))
        × (is_terminal (published c job stamp r) ≡ false)
    fields = published_fields c job stamp r

    expiry_new : after.expiry job.job_id ≡ none
    unfolding publish_new hset persist xadd
    expiry_new = ground (arith, eq_refl job.job_id)

    expiry_old : (k : String) → str_eq k job.job_id ≡ false → after.expiry k ≡ r.expiry k
    unfolding publish_new hset persist xadd
    expiry_old k other = ground arith

    lease_after : (n : ℕ) → get_lease after n ≡ get_lease r n
    unfolding publish_new hset persist xadd get_lease
    lease_after n = refl

    next_after : after.next_id ≡ suc r.next_id
    unfolding publish_new hset persist xadd
    next_after = refl

    undelivered_after : after.undelivered ≡ r.undelivered
    unfolding publish_new hset persist xadd
    undelivered_after = refl

    delivered_after : (n : ℕ) → is_delivered after n ≡ is_delivered r n
    unfolding publish_new hset persist xadd is_delivered
    delivered_after n = refl

    IsKept-after :
        (k : String) (h : Hash)
        → find_hash after k ≡ some h
        → is_terminal h ≡ false
        → IsKept c after k h
    IsKept-after k h e open_job = elim (Bool-cases (str_eq k job.job_id)) [
      | inl same ↦
          let (named, new) = new_job k h e same in
          record {
            message = r.next_id;
            linked = rw new fields.0;
            carried = rw named new-Carries;
            lasting = rw named expiry_new;
          }
      | inr other ↦
          let q = i.kept k h (old_job k h e other) open_job in
          record {
            message = q.message;
            linked = q.linked;
            carried = Carries-after q.message k q.carried;
            lasting = expiry_old k other ∙ q.lasting;
          }
    ]

    keyed_after :
        (k : String) (h : Hash) (m : ℕ) (p : String)
        → find_hash after k ≡ some h
        → h.stream_id ≡ some (entry m)
        → find_entry after.stream m ≡ some p
        → Carries c after m k
    keyed_after k h m p e l s = elim (Bool-cases (str_eq k job.job_id)) [
      | inl same ↦
          let (named, new) = new_job k h e same in
          let here : m ≡ r.next_id = cc (fields.0, l, new) in rw (named, here) new-Carries
      | inr other ↦
          let old = old_job k h e other in
          let before : find_entry r.stream m ≡ some p =
            ground (arith, stream_after m, i.named_below k h m old l) in
          Carries-after m k (i.keyed k h m p old l before)
    ]

    named_below_after :
        (k : String) (h : Hash) (m : ℕ)
        → find_hash after k ≡ some h
        → h.stream_id ≡ some (entry m)
        → m < after.next_id
    named_below_after k h m e l = elim (Bool-cases (str_eq k job.job_id)) [
      | inl same ↦
          let (named, new) = new_job k h e same in
          let here : m ≡ r.next_id = cc (fields.0, l, new) in omega (arith, here, next_after)
      | inr other ↦ omega (arith, next_after, i.named_below k h m (old_job k h e other) l)
    ]

    IsHeld-after : (n : ℕ) (t : String) → get_lease after n ≡ some t → IsHeld after n
    IsHeld-after n t e =
        let q = i.held n t (sym (lease_after n) ∙ e) in
        record {
          key = q.key;
          status = q.status;
          at = ground (
            arith,
            find_hash-publish_new c job stamp r q.key,
            eq_iff q.key job.job_id,
            q.at,
            free,
          );
          open_job = q.open_job;
          linked = q.linked;
        }

    reachable_after :
        (n : ℕ) (p : String)
        → find_entry after.stream n ≡ some p
        → (after.undelivered ≤ n) ⊎ (is_delivered after n ≡ true)
    reachable_after n p e = elim (Bool-cases (n == r.next_id)) [
      | inl same ↦ inl (omega (arith, ==-eq n r.next_id same, undelivered_after, i.handed))
      | inr other ↦ elim (i.reachable n p (ground (arith, stream_after n))) [
        | inl new ↦ inl (omega (arith, undelivered_after))
        | inr old ↦ inr (delivered_after n ∙ old)
      ]
    ]

    present_after :
        (n : ℕ) → is_delivered after n ≡ true → (p : String) × (find_entry after.stream n ≡ some p)
    present_after n e =
        let (p, q) = i.present n (sym (delivered_after n) ∙ e) in
        (p, ground (arith, stream_after n, i.below n p q, q))

    publish_new-IsSound : IsSound c after
    publish_new-IsSound = record {
      below = λ n p e. ground (arith, stream_after n, next_after, i.below n p);
      handed = omega (arith, next_after, undelivered_after, i.handed);
      named_below = named_below_after;
      kept = IsKept-after;
      keyed = keyed_after;
      held = IsHeld-after;
      reachable = reachable_after;
      present = present_after;
    }

  pub publish_job-IsSound :
      (job : IndexJob) (stamp : String)
      → c.load (c.dump job) ≡ some job
      → IsSound c (publish_job c job stamp r).1
  publish_job-IsSound job stamp decoded = elim (Option-cases (find_hash r job.job_id)) [
    | inl free ↦
        rw (publish_job-new c job stamp r free) (publish_new-IsSound job stamp decoded free)
    | inr (h, taken) ↦ rw (publish_job-taken c job stamp r taken, republish_unchanged) i
  ]
