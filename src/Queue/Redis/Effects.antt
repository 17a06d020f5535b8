-- ===== src/Queue/Redis/Effects.antt =====
-- What each Redis command changes: equations in `if` form, one for each thing that a proof reads.
use cga.Prelude.{
  ℕ, suc, ◌+◌, ◌≤◌, ◌<◌, String, ◌≡◌, ◌≢◌, refl, ◌∙◌, Bool, true, false, not, Option, none, some,
  List, [], ◌∷◌, ◌++◌, arith, eq_iff, ◌||◌, ◌≤◌, Option-cases, inl, inr, Bool-cases, eq_refl,
  str_eq, ◌==◌, leb, if◌then◌else◌, put_text, keep, any, Bool-cases, inl, inr,
}
use cga.Queue.Status.{Hash}
use cga.Queue.Redis.{
  Redis, Delivery, find_hash, fields_of, hgetall, hset, persist, is_delivery_of, reassign,
  find_entry, without_entry, xadd, first_new,
}

pub find_hash-hset :
    (k j : String) (f : Hash → Hash) (r : Redis)
    → find_hash (hset k f r) j ≡ (if str_eq j k then some (f (hgetall r k)) else find_hash r j)
unfolding find_hash hset
find_hash-hset k j f r = ground (arith, eq_iff j k)

pub find_hash-persist : (k j : String) (r : Redis) → find_hash (persist k r) j ≡ find_hash r j
unfolding find_hash persist
find_hash-persist k j r = ground (arith, eq_iff j k)

-- `hset` then `persist`, as every handler sends them.
pub find_hash-persist-hset :
    (k j : String) (f : Hash → Hash) (r : Redis)
    → find_hash (persist k (hset k f r)) j
      ≡ (if str_eq j k then some (f (hgetall r k)) else find_hash r j)
find_hash-persist-hset k j f r = find_hash-persist k j (hset k f r) ∙ find_hash-hset k j f r

pub find_entry-without :
    (m n : ℕ) (s : List (ℕ × String))
    → find_entry (without_entry m s) n ≡ (if n == m then none else find_entry s n)
unfolding find_entry
find_entry-without m n [] = ground arith
find_entry-without m n ((i, p) ∷ s) = ground (arith, find_entry-without m n s)

pub find_entry-append :
    (s : List (ℕ × String)) (m n : ℕ) (p : String)
    → find_entry s m ≡ none
    → find_entry (s ++ (m, p) ∷ []) n ≡ (if n == m then some p else find_entry s n)
unfolding find_entry
find_entry-append [] m n p h = ground arith
find_entry-append ((i, q) ∷ s) m n p h = ground (arith, find_entry-append s m n p)

pub any-reassign :
    (m n t : ℕ) (w : String) (ds : List Delivery)
    → any (is_delivery_of n) (reassign m w t ds) ≡ any (is_delivery_of n) ds
unfolding any
any-reassign m n t w [] = refl
any-reassign m n t w (d ∷ ds) = ground (arith, any-reassign m n t w ds)

pub any-keep :
    (m n : ℕ) (ds : List Delivery)
    → any (is_delivery_of n) (keep (λ d. not (is_delivery_of m d)) ds)
      ≡ (if n == m then false else any (is_delivery_of n) ds)
unfolding any keep
any-keep m n [] = ground arith
any-keep m n (d ∷ ds) = ground (arith, any-keep m n ds)

pub find_hash-xadd : (p j : String) (r : Redis) → find_hash (xadd p r) j ≡ find_hash r j
unfolding find_hash xadd
find_hash-xadd p j r = refl

pub hgetall-eq : (k : String) (r : Redis) → hgetall r k ≡ fields_of (find_hash r k)
unfolding hgetall
hgetall-eq k r = refl

pub ruleset hash_effects = (find_hash-persist, find_hash-hset, find_hash-xadd, eq_refl)

pub any-append :
    (n : ℕ) (ds : List Delivery) (d : Delivery)
    → any (is_delivery_of n) (ds ++ d ∷ []) ≡ any (is_delivery_of n) ds || is_delivery_of n d
unfolding any
any-append n [] d = ground arith
any-append n (x ∷ ds) d = ground (arith, any-append n ds d)

-- The first new entry is in the stream, and new.
pub first_new_found :
    (u : ℕ) (s : List (ℕ × String)) (i : ℕ)
    → first_new u s ≡ some i
    → (p : String) × (find_entry s i ≡ some p) × (u ≤ i)
unfolding first_new find_entry
first_new_found u [] i e = cc
first_new_found u ((j, q) ∷ s) i e = elim (Option-cases (first_new u s)) [
  | inl none_later ↦ (q, ground arith, ground arith)
  | inr (l, later) ↦
      let (p, found, new) = first_new_found u s l later in
      elim (Bool-cases (j == i)) [
        | inl same ↦ (q, ground arith, ground arith)
        | inr other ↦ (p, ground arith, ground arith)
      ]
]

-- A new entry of the stream is found, or one before it.
pub first_new-ne_none :
    (u : ℕ) (s : List (ℕ × String)) (m : ℕ) (p : String)
    → find_entry s m ≡ some p
    → u ≤ m
    → first_new u s ≢ none
unfolding first_new find_entry
first_new-ne_none u [] m p e h = cc
first_new-ne_none u ((j, q) ∷ s) m p e h = ground (arith, first_new-ne_none u s m p)

pub first_new_least :
    (u : ℕ) (s : List (ℕ × String)) (m i : ℕ) (p : String)
    → find_entry s m ≡ some p
    → u ≤ m
    → first_new u s ≡ some i
    → i ≤ m
unfolding first_new find_entry
first_new_least u [] m i p e h f = cc
first_new_least u ((j, q) ∷ s) m i p e h f = elim (Option-cases (first_new u s)) [
  | inl none_later ↦ ground (arith, first_new-ne_none u s m p)
  | inr (l, later) ↦ ground (arith, first_new_least u s m l p)
]
