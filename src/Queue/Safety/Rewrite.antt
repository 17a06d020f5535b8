-- ===== src/Queue/Safety/Rewrite.antt =====
-- A transaction that writes the status of one job, for the message that carries it.
use cga.Prelude.{
  ℕ, ◌<◌, ◌≤◌, String, ◌≡◌, sym, ◌∙◌, ◌⊎◌, inl, inr, true, false, none, some, arith, eq_iff,
  eq_refl, str_eq, ◌==◌, Bool-cases, if◌then◌else◌, ==-eq,
}
use cga.Queue.Job.{Codec}
use cga.Queue.Status.{Hash, entry, is_terminal, is_elsewhere}
use cga.Queue.Redis.{Redis, find_hash, hgetall, find_entry, get_lease, is_delivered}
use cga.Queue.Redis.Effects.{hgetall-eq}
use cga.Queue.Safety.Invariant.{Carries, IsKept, IsHeld, IsSound}

-- `s` is `r` with the status `h` at `k`, linked to the message `m`, with no expiry there; the
-- stream and the pending list are the same, and so are the other messages' leases.
pub record Rewrites (r s : Redis) (k : String) (h : Hash) (m : ℕ) : Type 0 where
  pub hashes : (j : String) → find_hash s j ≡ (if str_eq j k then some h else find_hash r j)
  pub lasting : s.expiry k ≡ none
  pub expiries : (j : String) → str_eq j k ≡ false → s.expiry j ≡ r.expiry j
  pub stream : s.stream ≡ r.stream
  pub next_id : s.next_id ≡ r.next_id
  pub undelivered : s.undelivered ≡ r.undelivered
  pub delivered : (n : ℕ) → is_delivered s n ≡ is_delivered r n
  pub linked : h.stream_id ≡ some (entry m)
  pub leases : (n : ℕ) → (n == m) ≡ false → get_lease s n ≡ get_lease r n
  pub closed : is_terminal h ≡ true → get_lease s m ≡ none

module _ {c : Codec} {r s : Redis} {k : String} {h : Hash} {m : ℕ} (w : Rewrites r s k h m)
    (i : IsSound c r) (carried : Carries c r m k)
    (here : is_elsewhere (hgetall r k) m ≡ false) where
  Carries-rewrite : (n : ℕ) (j : String) → Carries c r n j → Carries c s n j
  Carries-rewrite n j q = record {
    payload = q.payload;
    job = q.job;
    stored = rw w.stream q.stored;
    decoded = q.decoded;
    named = q.named;
  }

  stored_before :
      (n : ℕ) (p : String) → find_entry s.stream n ≡ some p → find_entry r.stream n ≡ some p
  stored_before n p e = rw (← w.stream) e

  at_key : (j : String) (g : Hash) → find_hash s j ≡ some g → str_eq j k ≡ true → (j ≡ k) × (g ≡ h)
  at_key j g e t = ground (arith, w.hashes j, eq_iff j k)

  at_other :
      (j : String) (g : Hash) → find_hash s j ≡ some g → str_eq j k ≡ false → find_hash r j ≡ some g
  at_other j g e f = ground (arith, w.hashes j)

  IsKept-after :
      (j : String) (g : Hash) → find_hash s j ≡ some g → is_terminal g ≡ false → IsKept c s j g
  IsKept-after j g e o = elim (Bool-cases (str_eq j k)) [
    | inl t ↦
        let (named, same) = at_key j g e t in
        record {
          message = m;
          linked = rw same w.linked;
          carried = rw named (Carries-rewrite m k carried);
          lasting = rw named w.lasting;
        }
    | inr f ↦
        let q = i.kept j g (at_other j g e f) o in
        record {
          message = q.message;
          linked = q.linked;
          carried = Carries-rewrite q.message j q.carried;
          lasting = w.expiries j f ∙ q.lasting;
        }
  ]

  keyed_after :
      (j : String) (g : Hash) (n : ℕ) (p : String)
      → find_hash s j ≡ some g
      → g.stream_id ≡ some (entry n)
      → find_entry s.stream n ≡ some p
      → Carries c s n j
  keyed_after j g n p e l q = elim (Bool-cases (str_eq j k)) [
    | inl t ↦
        let (named, same) = at_key j g e t in
        let same_message : n ≡ m = cc (w.linked, l, same) in
        rw (named, same_message) (Carries-rewrite m k carried)
    | inr f ↦ Carries-rewrite n j (i.keyed j g n p (at_other j g e f) l (stored_before n p q))
  ]

  named_below_after :
      (j : String) (g : Hash) (n : ℕ)
      → find_hash s j ≡ some g
      → g.stream_id ≡ some (entry n)
      → n < s.next_id
  named_below_after j g n e l = elim (Bool-cases (str_eq j k)) [
    | inl t ↦
        let (named, same) = at_key j g e t in
        let same_message : n ≡ m = cc (w.linked, l, same) in
        rw (same_message, w.next_id) (i.below m carried.payload carried.stored)
    | inr f ↦ rw w.next_id (i.named_below j g n (at_other j g e f) l)
  ]

  -- A status linked to another message is not the one that is written over.
  not_here :
      (j : String) (g : Hash) (n : ℕ)
      → find_hash r j ≡ some g
      → g.stream_id ≡ some (entry n)
      → (n == m) ≡ false
      → str_eq j k ≡ false
  unfolding is_elsewhere
  not_here j g n e l ne = ground (arith, eq_iff j k, hgetall-eq k r, here)

  leased_closed :
      (n : ℕ) (t : String) → get_lease s n ≡ some t → (n == m) ≡ true → is_terminal h ≡ true → ⊥
  leased_closed n t e same over = ground (arith, w.closed over, ==-eq n m same)

  IsHeld-after : (n : ℕ) (t : String) → get_lease s n ≡ some t → IsHeld s n
  IsHeld-after n t e = elim (Bool-cases (n == m)) [
    | inl same ↦ elim (Bool-cases (is_terminal h)) [
      | inl over ↦ absurd (leased_closed n t e same over)
      | inr going ↦ record {
        key = k;
        status = h;
        at = w.hashes k ∙ rw eq_refl;
        open_job = going;
        linked = rw (==-eq n m same) w.linked;
      }
    ]
    | inr other ↦
        let q = i.held n t (sym (w.leases n other) ∙ e) in
        record {
          key = q.key;
          status = q.status;
          at = w.hashes q.key ∙ rw (not_here q.key q.status n q.at q.linked other) q.at;
          open_job = q.open_job;
          linked = q.linked;
        }
  ]

  reachable_after :
      (n : ℕ) (p : String)
      → find_entry s.stream n ≡ some p
      → (s.undelivered ≤ n) ⊎ (is_delivered s n ≡ true)
  reachable_after n p e = elim (i.reachable n p (stored_before n p e)) [
    | inl new ↦ inl (omega (arith, w.undelivered))
    | inr old ↦ inr (w.delivered n ∙ old)
  ]

  pub Rewrites-IsSound : IsSound c s
  Rewrites-IsSound = record {
    below = λ n p e. rw w.next_id (i.below n p (stored_before n p e));
    handed = omega (arith, w.next_id, w.undelivered, i.handed);
    named_below = named_below_after;
    kept = IsKept-after;
    keyed = keyed_after;
    held = IsHeld-after;
    reachable = reachable_after;
    present = λ n e. rw w.stream (i.present n (sym (w.delivered n) ∙ e));
  }
