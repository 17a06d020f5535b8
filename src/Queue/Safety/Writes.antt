-- ===== src/Queue/Safety/Writes.antt =====
-- The handlers' transactions as status rewrites: one rule for each Redis command.
use cga.Prelude.{ℕ, String, ◌≡◌, refl, ◌∙◌, true, false, none, some, arith, eq_refl}
use cga.Queue.Status.{Hash, entry, is_terminal}
use cga.Queue.Redis.{
  Redis, find_hash, hgetall, hset, persist, get_lease, set_lease, extend_lease, drop_lease, sadd,
  xclaim, is_delivered,
}
use cga.Queue.Redis.Effects.{find_hash-persist-hset, any-reassign}
use cga.Queue.Safety.Rewrite.{Rewrites}

-- HSET and PERSIST, where a terminal status finds no live lease.
pub hset-Rewrites :
    (r : Redis) (k : String) (f : Hash → Hash) (m : ℕ)
    → (f (hgetall r k)).stream_id ≡ some (entry m)
    → (is_terminal (f (hgetall r k)) ≡ true → get_lease r m ≡ none)
    → Rewrites r (persist k (hset k f r)) k (f (hgetall r k)) m
unfolding persist hset
hset-Rewrites r k f m l q = record {
  hashes = λ j. find_hash-persist-hset k j f r;
  lasting = rw eq_refl;
  expiries = λ j e. ground arith;
  stream = refl;
  next_id = refl;
  undelivered = refl;
  delivered = λ n. unfold is_delivered in refl;
  linked = l;
  leases = λ n e. unfold get_lease in refl;
  closed = λ t. unfold get_lease in q t;
}

module _ {r s : Redis} {k : String} {h : Hash} {m : ℕ} where
  pub xclaim-Rewrites :
      (n : ℕ) (name : String) → Rewrites r s k h m → Rewrites r (xclaim n name s) k h m
  unfolding xclaim find_hash get_lease is_delivered
  xclaim-Rewrites n name w = record {
    hashes = w.hashes;
    lasting = w.lasting;
    expiries = w.expiries;
    stream = w.stream;
    next_id = w.next_id;
    undelivered = w.undelivered;
    delivered = λ i. any-reassign n i s.now name s.deliveries ∙ w.delivered i;
    linked = w.linked;
    leases = w.leases;
    closed = w.closed;
  }

  pub sadd-Rewrites : (j : String) → Rewrites r s k h m → Rewrites r (sadd j s) k h m
  unfolding sadd find_hash get_lease is_delivered
  sadd-Rewrites j w = record {
    hashes = w.hashes;
    lasting = w.lasting;
    expiries = w.expiries;
    stream = w.stream;
    next_id = w.next_id;
    undelivered = w.undelivered;
    delivered = w.delivered;
    linked = w.linked;
    leases = w.leases;
    closed = w.closed;
  }

  pub set_lease-Rewrites :
      (token : String) (ms : ℕ)
      → is_terminal h ≡ false
      → Rewrites r s k h m
      → Rewrites r (set_lease m token ms s) k h m
  unfolding set_lease find_hash get_lease is_delivered
  set_lease-Rewrites token ms open_job w = record {
    hashes = w.hashes;
    lasting = w.lasting;
    expiries = w.expiries;
    stream = w.stream;
    next_id = w.next_id;
    undelivered = w.undelivered;
    delivered = w.delivered;
    linked = w.linked;
    leases = λ n e. rw e (w.leases n e);
    closed = λ t. cc (open_job, t);
  }

  pub extend_lease-Rewrites :
      (ms : ℕ) → is_terminal h ≡ false → Rewrites r s k h m → Rewrites r (extend_lease m ms s) k h m
  unfolding extend_lease find_hash get_lease is_delivered
  extend_lease-Rewrites ms open_job w = record {
    hashes = w.hashes;
    lasting = w.lasting;
    expiries = w.expiries;
    stream = w.stream;
    next_id = w.next_id;
    undelivered = w.undelivered;
    delivered = w.delivered;
    linked = w.linked;
    leases = λ n e. rw e (w.leases n e);
    closed = λ t. cc (open_job, t);
  }

  -- A rewrite of the store without the lease is one of the store.
  pub dropped_Rewrites : Rewrites (drop_lease m r) s k h m → Rewrites r s k h m
  unfolding drop_lease find_hash get_lease is_delivered
  dropped_Rewrites w = record {
    hashes = w.hashes;
    lasting = w.lasting;
    expiries = w.expiries;
    stream = w.stream;
    next_id = w.next_id;
    undelivered = w.undelivered;
    delivered = w.delivered;
    linked = w.linked;
    leases = λ n e. w.leases n e ∙ rw e;
    closed = w.closed;
  }
