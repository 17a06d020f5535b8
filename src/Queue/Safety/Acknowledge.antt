-- ===== src/Queue/Safety/Acknowledge.antt =====
-- `ack` removes one message at most, of a job that is over.
use cga.Prelude.{
  ℕ, String, ◌≡◌, ◌∙◌, ◌⊎◌, inl, inr, true, false, none, some, arith, eq_iff, str_eq, ◌==◌,
  Bool-cases, if◌then◌else◌, ap, ◌&&◌, Option-cases,
}
use cga.Queue.Job.{Codec}
use cga.Queue.Status.{Hash, no_fields, entry, is_terminal, is_at}
use cga.Queue.Redis.{
  Redis, find_hash, hgetall, find_entry, get_lease, is_delivered, persist, expire, sadd, srem, xack,
  xdel, fields_of,
}
use cga.Queue.Redis.Effects.{hgetall-eq, find_hash-persist, find_entry-without, any-keep}
use cga.Queue.Watch.{ok, raise, refused_ack}
use cga.Queue.Ack.{ack, release, expire_success}
use cga.Queue.Safety.Invariant.{IsSound}
use cga.Queue.Safety.Removal.{Removes, Removes-IsSound}

-- The commands of `release`, with the PERSIST before them, leave every status as it was.
find_hash-release :
    (h : Hash) (m : ℕ) (k j : String) (r : Redis)
    → find_hash (release h m k (persist k r)) j ≡ find_hash r j
unfolding release expire_success expire sadd srem xack xdel persist find_hash
find_hash-release h m k j r = ground (arith, eq_iff j k)

release_Removes :
    (r : Redis) (k : String) (h : Hash) (m : ℕ)
    → find_hash r k ≡ some h
    → is_terminal h ≡ true
    → h.stream_id ≡ some (entry m)
    → Removes r (release h m k (persist k r)) k h m
release_Removes r k h m e over linked = record {
  at = e;
  over = over;
  linked = linked;
  hashes = λ j. find_hash-release h m k j r;
  expiries = λ j other. expiry-release j other;
  stream = stream-release;
  delivered = delivered-release;
  next_id = unfold release expire_success expire sadd srem xack xdel persist in ground arith;
  undelivered = unfold release expire_success expire sadd srem xack xdel persist in ground arith;
  leases = λ n.
      unfold release expire_success expire sadd srem xack xdel persist get_lease in ground arith;
}
  where
    expiry-release :
        (j : String) → str_eq j k ≡ false → (release h m k (persist k r)).expiry j ≡ r.expiry j
    expiry-release j other =
        unfold release expire_success expire sadd srem xack xdel persist in ground arith

    stream-release :
        (n : ℕ)
        → find_entry (release h m k (persist k r)).stream n
          ≡ (if n == m then none else find_entry r.stream n)
    stream-release n =
        unfold release expire_success expire sadd srem xack xdel persist in
        ground (arith, find_entry-without m n r.stream)

    delivered-release :
        (n : ℕ)
        → is_delivered (release h m k (persist k r)) n
          ≡ (if n == m then false else is_delivered r n)
    delivered-release n =
        unfold release expire_success expire sadd srem xack xdel persist is_delivered in
        ground (arith, any-keep m n r.deliveries)

entry_of_is_at : (h : Hash) (m : ℕ) → is_at h m ≡ true → h.stream_id ≡ some (entry m)
unfolding is_at
entry_of_is_at h m e = ground arith

hgetall_of : (r : Redis) (k : String) {h : Hash} → find_hash r k ≡ some h → hgetall r k ≡ h
hgetall_of r k e = hgetall-eq k r ∙ ap fields_of e

ack_missing :
    (m : ℕ) (k : String) (r : Redis) → find_hash r k ≡ none → ack m k r ≡ (raise refused_ack, r)
unfolding ack is_terminal
ack_missing m k r e =
    let q : hgetall r k ≡ no_fields = hgetall-eq k r ∙ ap fields_of e in rw (q, ack)

ack_found :
    (m : ℕ) (k : String) (r : Redis) (h : Hash)
    → find_hash r k ≡ some h
    → ack m k r ≡ (
        if is_terminal h && is_at h m
        then (ok tt, release h m k (persist k r))
        else (raise refused_ack, r))
unfolding ack
ack_found m k r h e =
    ground (arith, hgetall_of r k e, hgetall_of (persist k r) k (find_hash-persist k k r ∙ e))

at_of_entry : (h : Hash) (m : ℕ) → h.stream_id ≡ some (entry m) → is_at h m ≡ true
unfolding is_at
at_of_entry h m e = ground arith

-- A terminal job linked to the message is acknowledged.
pub ack_terminal :
    (m : ℕ) (k : String) (r : Redis) (h : Hash)
    → find_hash r k ≡ some h
    → is_terminal h ≡ true
    → h.stream_id ≡ some (entry m)
    → ((ack m k r).0 ≡ ok tt) × Removes r (ack m k r).1 k h m
ack_terminal m k r h e over linked =
    let q : ack m k r ≡ (ok tt, release h m k (persist k r)) =
      ground (arith, ack_found m k r h e, at_of_entry h m linked) in
    (rw q, rw q (release_Removes r k h m e over linked))

-- `ack` refuses and writes nothing, unless the job's status is there, terminal, and linked to this
-- very message. Then it succeeds, and takes this message alone out of the stream and out of the
-- pending list: every status, every lease and every other message stays.
pub ack_cases :
    (m : ℕ) (k : String) (r : Redis)
    → (ack m k r ≡ (raise refused_ack, r))
      ⊎ ((h : Hash) × ((ack m k r).0 ≡ ok tt) × Removes r (ack m k r).1 k h m)
ack_cases m k r = elim (Option-cases (find_hash r k)) [
  | inl missing ↦ inl (ack_missing m k r missing)
  | inr (h, e) ↦ elim (Bool-cases (is_terminal h)) [
    | inl over ↦ elim (Bool-cases (is_at h m)) [
      | inl at ↦
          let q : ack m k r ≡ (ok tt, release h m k (persist k r)) =
            ground (arith, ack_found m k r h e) in
          inr (h, rw q, rw q (release_Removes r k h m e over (entry_of_is_at h m at)))
      | inr off ↦ inl (ground (arith, ack_found m k r h e))
    ]
    | inr going ↦ inl (ground (arith, ack_found m k r h e))
  ]
]

pub ack-IsSound :
    {c : Codec} {r : Redis} (m : ℕ) (k : String) → IsSound c r → IsSound c (ack m k r).1
ack-IsSound {r = r} m k i = elim (ack_cases m k r) [
  | inl refused ↦ rw refused i
  | inr (h, done, removed) ↦ Removes-IsSound removed i
]
