-- ===== src/Queue/Safety/Removal.antt =====
-- A store stays sound when the message of a job that is over is removed from it.
use cga.Prelude.{
  ℕ, ◌≤◌, String, ◌≡◌, sym, ◌∙◌, ◌⊎◌, inl, inr, true, false, none, some, arith, eq_iff, str_eq,
  ◌==◌, Bool-cases, if◌then◌else◌, ==-eq,
}
use cga.Queue.Job.{Codec}
use cga.Queue.Status.{Hash, entry, is_terminal}
use cga.Queue.Redis.{Redis, find_hash, find_entry, get_lease, is_delivered}
use cga.Queue.Safety.Invariant.{Carries, Carries-unique, IsKept, IsHeld, IsSound}

-- `s` is `r` without the message `m`, whose job `k` has the terminal status `h`; statuses are the
-- same, and only `k` may expire now.
pub record Removes (r s : Redis) (k : String) (h : Hash) (m : ℕ) : Type 0 where
  pub at : find_hash r k ≡ some h
  pub over : is_terminal h ≡ true
  pub linked : h.stream_id ≡ some (entry m)
  pub hashes : (j : String) → find_hash s j ≡ find_hash r j
  pub expiries : (j : String) → str_eq j k ≡ false → s.expiry j ≡ r.expiry j
  pub stream : (n : ℕ) → find_entry s.stream n ≡ (if n == m then none else find_entry r.stream n)
  pub delivered : (n : ℕ) → is_delivered s n ≡ (if n == m then false else is_delivered r n)
  pub next_id : s.next_id ≡ r.next_id
  pub undelivered : s.undelivered ≡ r.undelivered
  pub leases : (n : ℕ) → get_lease s n ≡ get_lease r n

module _ {c : Codec} {r s : Redis} {k : String} {h : Hash} {m : ℕ} (w : Removes r s k h m)
    (i : IsSound c r) where
  stored_before :
      (n : ℕ) (p : String)
      → find_entry s.stream n ≡ some p
      → (find_entry r.stream n ≡ some p) × ((n == m) ≡ false)
  stored_before n p e = ground (arith, w.stream n)

  Carries-other : (n : ℕ) (j : String) → (n == m) ≡ false → Carries c r n j → Carries c s n j
  Carries-other n j other q = record {
    payload = q.payload;
    job = q.job;
    stored = w.stream n ∙ rw other q.stored;
    decoded = q.decoded;
    named = q.named;
  }

  -- The message of a job that is not terminal is another.
  other_message :
      (j : String) (g : Hash) (n : ℕ)
      → find_hash r j ≡ some g
      → is_terminal g ≡ false
      → Carries c r n j
      → (n == m) ≡ false
  other_message j g n e open_job q = elim (Bool-cases (n == m)) [
    | inl same ↦
        let here : find_entry r.stream m ≡ some q.payload = rw (← ==-eq n m same) q.stored in
        let mine : Carries c r m j = rw (← ==-eq n m same) q in
        let named : j ≡ k = Carries-unique mine (i.keyed k h m q.payload w.at w.linked here) in
        let known : find_hash r k ≡ some g = rw (← named) e in absurd (clash g known open_job)
    | inr other ↦ other
  ]
    where
      clash : (g : Hash) → find_hash r k ≡ some g → is_terminal g ≡ false → ⊥
      clash g e open_job = ground (arith, w.at, w.over)

  IsKept-after :
      (j : String) (g : Hash) → find_hash s j ≡ some g → is_terminal g ≡ false → IsKept c s j g
  IsKept-after j g e open_job =
      let before : find_hash r j ≡ some g = sym (w.hashes j) ∙ e in
      let q = i.kept j g before open_job in
      let not_k : str_eq j k ≡ false = ground (arith, w.at, w.over, eq_iff j k, before) in
      record {
        message = q.message;
        linked = q.linked;
        carried =
            Carries-other q.message j (other_message j g q.message before open_job q.carried)
              q.carried;
        lasting = w.expiries j not_k ∙ q.lasting;
      }

  IsHeld-after : (n : ℕ) (t : String) → get_lease s n ≡ some t → IsHeld s n
  IsHeld-after n t e =
      let q = i.held n t (sym (w.leases n) ∙ e) in
      record {
        key = q.key;
        status = q.status;
        at = w.hashes q.key ∙ q.at;
        open_job = q.open_job;
        linked = q.linked;
      }

  reachable_after :
      (n : ℕ) (p : String)
      → find_entry s.stream n ≡ some p
      → (s.undelivered ≤ n) ⊎ (is_delivered s n ≡ true)
  reachable_after n p e =
      let (before, other) = stored_before n p e in
      elim (i.reachable n p before) [
        | inl new ↦ inl (omega (arith, w.undelivered))
        | inr old ↦ inr (w.delivered n ∙ rw other old)
      ]

  present_after :
      (n : ℕ) → is_delivered s n ≡ true → (p : String) × (find_entry s.stream n ≡ some p)
  present_after n e = elim (Bool-cases (n == m)) [
    | inl same ↦ absurd (gone n e same)
    | inr other ↦ let (p, q) = i.present n (kept_delivery n e other) in (p, w.stream n ∙ rw other q)
  ]
    where
      gone : (n : ℕ) → is_delivered s n ≡ true → (n == m) ≡ true → ⊥
      gone n e same = ground (arith, w.delivered n)

      kept_delivery : (n : ℕ) → is_delivered s n ≡ true → (n == m) ≡ false → is_delivered r n ≡ true
      kept_delivery n e other = ground (arith, w.delivered n)

  pub Removes-IsSound : IsSound c s
  Removes-IsSound = record {
    below = λ n p e. rw w.next_id (i.below n p (stored_before n p e).0);
    handed = omega (arith, w.next_id, w.undelivered, i.handed);
    named_below = λ j g n e l. rw w.next_id (i.named_below j g n (sym (w.hashes j) ∙ e) l);
    kept = IsKept-after;
    keyed = λ j g n p e l q.
        let (before, other) = stored_before n p q in
        Carries-other n j other (i.keyed j g n p (sym (w.hashes j) ∙ e) l before);
    held = IsHeld-after;
    reachable = reachable_after;
    present = present_after;
  }
