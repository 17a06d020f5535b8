-- ===== src/Queue/Redis.antt =====
-- The part of Redis that the queue uses: the status hashes with their expiry, the leases, the
-- stream with its consumer group, and the cleanup set. Commands are functions on this store.
pub mod Effects
use cga.Prelude.{
  ℕ, zero, suc, min, ◌+◌, String, Bool, true, false, ◌||◌, not, Option, none, some, List, [], ◌∷◌,
  ◌++◌, leb, ltb, ◌==◌, str_eq, if◌then◌else◌, put_text, put_num, keep, any,
}
use cga.Queue.Status.{Hash, no_fields}

-- A lease key: its value, and the time at which it expires.
pub record Lease : Type 0 where
  pub token : String
  pub expires : ℕ

-- An entry of the group's pending list.
pub record Delivery : Type 0 where
  pub message_id : ℕ
  pub consumer : String
  pub delivered_at : ℕ
  pub times_delivered : ℕ

-- Times are server milliseconds. An entry of the stream is its ID and its payload; IDs grow, and
-- `next_id` is above all of them. Entries from `undelivered` on are new to the group.
pub record Redis : Type 0 where
  pub now : ℕ
  pub hashes : String → Option Hash
  pub expiry : String → Option ℕ
  pub leases : ℕ → Option Lease
  pub stream : List (ℕ × String)
  pub next_id : ℕ
  pub undelivered : ℕ
  pub deliveries : List Delivery
  pub cleanup : List String

abbrev pub fresh : Redis
fresh = record {
  now = 0;
  hashes = λ k. none;
  expiry = λ k. none;
  leases = λ m. none;
  stream = [];
  next_id = 1;
  undelivered = 1;
  deliveries = [];
  cleanup = [];
}

abbrev pub has_expired : Option ℕ → ℕ → Bool
has_expired none now = false
has_expired (some deadline) now = leb deadline now

-- The hash at a key, `none` where there is no key.
unfoldable pub find_hash : Redis → String → Option Hash
find_hash r k = if has_expired (r.expiry k) r.now then none else r.hashes k

abbrev pub fields_of : Option Hash → Hash
fields_of none = no_fields
fields_of (some h) = h

-- HGETALL
unfoldable pub hgetall : Redis → String → Hash
unfolding find_hash
hgetall r k = fields_of (find_hash r k)

-- HSET: `f` writes its fields over those that are there; an expired key starts anew, without expiry.
unfoldable pub hset : String → (Hash → Hash) → Redis → Redis
unfolding hgetall
hset k f r = record r {
  hashes = put_text r.hashes k (some (f (hgetall r k)));
  expiry = put_text r.expiry k (if has_expired (r.expiry k) r.now then none else r.expiry k);
}

-- PERSIST, on a key that is there.
unfoldable pub persist : String → Redis → Redis
unfolding find_hash
persist k r = record r {
  hashes = put_text r.hashes k (find_hash r k);
  expiry = put_text r.expiry k none;
}

-- EXPIRE
unfoldable pub expire : String → ℕ → Redis → Redis
expire k ms r = record r { expiry = put_text r.expiry k (some (r.now + ms)) }

abbrev live_token : Option Lease → ℕ → Option String
live_token none now = none
live_token (some l) now = if leb l.expires now then none else some l.token

-- GET of a lease key
unfoldable pub get_lease : Redis → ℕ → Option String
get_lease r m = live_token (r.leases m) r.now

-- SET of a lease key with PX
unfoldable pub set_lease : ℕ → String → ℕ → Redis → Redis
set_lease m token ms r = record r {
  leases = put_num r.leases m (some (record { token = token; expires = r.now + ms }));
}

abbrev extend : Option Lease → ℕ → Option Lease
extend none t = none
extend (some l) t = some (record l { expires = t })

-- PEXPIRE of a lease key, on a key that is there
unfoldable pub extend_lease : ℕ → ℕ → Redis → Redis
extend_lease m ms r = record r { leases = put_num r.leases m (extend (r.leases m) (r.now + ms)) }

-- DEL of a lease key
unfoldable pub drop_lease : ℕ → Redis → Redis
drop_lease m r = record r { leases = put_num r.leases m none }

abbrev pub is_delivery_of : ℕ → Delivery → Bool
is_delivery_of m d = d.message_id == m

-- XPENDING of one ID, as a test
unfoldable pub is_delivered : Redis → ℕ → Bool
is_delivered r m = any (is_delivery_of m) r.deliveries

-- XCLAIM with minimum idle time 0 and JUSTID: a pending entry changes its owner and its clock.
abbrev reassign : ℕ → String → ℕ → List Delivery → List Delivery
reassign m consumer now [] = []
reassign m consumer now (d ∷ ds) =
    (if is_delivery_of m d then record d { consumer = consumer; delivered_at = now } else d)
    ∷ reassign m consumer now ds

unfoldable pub xclaim : ℕ → String → Redis → Redis
xclaim m consumer r = record r { deliveries = reassign m consumer r.now r.deliveries }

-- XACK
unfoldable pub xack : ℕ → Redis → Redis
xack m r = record r { deliveries = keep (λ d. not (is_delivery_of m d)) r.deliveries }

-- The payload of a stream entry (XRANGE of one ID).
unfoldable pub find_entry : List (ℕ × String) → ℕ → Option String
find_entry [] m = none
find_entry ((i, p) ∷ rest) m = if i == m then some p else find_entry rest m

abbrev pub without_entry : ℕ → List (ℕ × String) → List (ℕ × String)
without_entry m [] = []
without_entry m ((i, p) ∷ rest) =
    let others = without_entry m rest in if i == m then others else (i, p) ∷ others

-- XDEL
unfoldable pub xdel : ℕ → Redis → Redis
xdel m r = record r { stream = without_entry m r.stream }

-- XADD, with the ID that the server gives
unfoldable pub xadd : String → Redis → Redis
xadd payload r = record r {
  stream = r.stream ++ (r.next_id, payload) ∷ [];
  next_id = suc r.next_id;
}

abbrev without_text : String → List String → List String
without_text k [] = []
without_text k (j ∷ js) = let rest = without_text k js in if str_eq j k then rest else j ∷ rest

-- SADD and SREM on the cleanup set
unfoldable pub sadd : String → Redis → Redis
sadd k r = record r { cleanup = k ∷ without_text k r.cleanup }

unfoldable pub srem : String → Redis → Redis
srem k r = record r { cleanup = without_text k r.cleanup }

abbrev least : ℕ → Option ℕ → ℕ
least i none = i
least i (some j) = min i j

-- The first entry of the stream that the group has not handed out: the least ID from `from` on.
unfoldable pub first_new : ℕ → List (ℕ × String) → Option ℕ
first_new from [] = none
first_new from ((i, p) ∷ rest) =
    let later = first_new from rest in if ltb i from then later else some (least i later)

abbrev pub hand_out : Option ℕ → String → Redis → Redis
hand_out none name r = r
hand_out (some i) name r = record r {
  undelivered = suc i;
  deliveries =
      r.deliveries
      ++ record { message_id = i; consumer = name; delivered_at = r.now; times_delivered = 1 } ∷ [];
}

-- XREADGROUP of one new entry
unfoldable pub deliver : String → Redis → Redis
unfolding first_new
deliver name r = hand_out (first_new r.undelivered r.stream) name r

-- Time passes: leases and statuses may expire.
unfoldable pub tick : ℕ → Redis → Redis
tick ms r = record r { now = r.now + ms }
