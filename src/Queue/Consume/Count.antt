-- ===== src/Queue/Consume/Count.antt =====
-- How many messages `consume` returns, and that their jobs were decoded.
use cga.Prelude.{
  ℕ, zero, suc, ◌+◌, ◌*◌, ◌≤◌, ◌<◌, ◌≡◌, refl, sym, ap, ◌∙◌, subst, inl, inr, String, Bool, true,
  false, ◌||◌, Option, none, some, List, [], ◌∷◌, arith, Bool-cases, Option-cases, length, leb, ltb,
  All, if◌then◌else◌,
}
use cga.Queue.Job.{IndexJob, Codec, Worker}
use cga.Queue.Redis.{Redis, Delivery, find_entry, first_new, deliver}
use cga.Queue.Watch.{Outcome, ok, raise, invalid}
use cga.Queue.Ack.{cleanup_finished}
use cga.Queue.Consume.{
  Meanwhile, Batch, recovery_batch_size, xpending_range, decode, replay_one, is_last, rewound,
  go_on, replay, read_decoded, read_payload, read_one, read_on, read_all, xreadgroup, after_replay,
  after_cleanup, consume,
}
use cga.Queue.Consume.Added.{
  IsDecoded, Adds, Decodes, decode-Decodes, nothing_added, one_added, replay_one-Adds,
}

abbrev refusal : Redis → Outcome Batch × Redis
refusal r = (raise (invalid "count and block_ms must be positive"), r)

module _ (c : Codec) (w : Worker) (e : Meanwhile) where
  -- A replay that goes on has fewer messages than asked for; one that returns has at most as many.
  abbrev Replayed : ℕ → Outcome (Bool × Batch) × Redis → Type 0
  Replayed count (ok (true, b), r) = (length b.jobs ≤ count) × All (IsDecoded c w e) b.jobs
  Replayed count (ok (false, b), r) = (length b.jobs < count) × All (IsDecoded c w e) b.jobs
  Replayed count (raise x, r) = Unit

  rewound_jobs : (back : Bool) (b : Batch) → (rewound c w e back b).jobs ≡ b.jobs
  rewound_jobs true b = refl
  rewound_jobs false b = refl

  go_on-Replayed :
      (rest : Batch → Redis → Outcome (Bool × Batch) × Redis) (count : ℕ) (back : Bool) (b : Batch)
      (o : Outcome Batch × Redis)
      → ((b' : Batch) (r : Redis)
          → length b'.jobs < count
          → All (IsDecoded c w e) b'.jobs
          → Replayed count (rest b' r))
      → length b.jobs < count
      → All (IsDecoded c w e) b.jobs
      → Adds c w e 1 b o
      → Replayed count (go_on c w e rest count back o)
  go_on-Replayed rest count back b (raise x, r) k small a h = tt
  go_on-Replayed rest count back b (ok b', r) k small a (few, kept) =
      elim (Bool-cases (leb count (length b'.jobs))) [
        | inl q ↦
            rw (go_on, q)
              (
                subst (λ js. length js ≤ count) (sym (rewound_jobs back b'))
                    (omega (arith, small, few)),
                subst (All (IsDecoded c w e)) (sym (rewound_jobs back b')) (kept a),
              )
        | inr q ↦ rw (go_on, q) (k b' r (below count (length b'.jobs) q) (kept a))
      ]
    where
      below : (a b : ℕ) → leb a b ≡ false → b < a
      below a b e = ground arith

  replay-Replayed :
      (start count : ℕ) (short : Bool) (ds : List Delivery) (b : Batch) (r : Redis)
      → length b.jobs < count
      → All (IsDecoded c w e) b.jobs
      → Replayed count (replay c w e start count short ds b r)
  unfolding replay
  replay-Replayed start count short [] b r small a = (
    subst (λ js. length js < count) (sym (rewound_jobs short b)) small,
    subst (All (IsDecoded c w e)) (sym (rewound_jobs short b)) a,
  )
  replay-Replayed start count short (d ∷ ds) b r small a =
      go_on-Replayed (replay c w e start count short ds) count
        (if is_last c w e ds then short else false) b (replay_one c w e start d b r)
        (λ b' r' small' a'. replay-Replayed start count short ds b' r' small' a') small a
        (replay_one-Adds c w e start d b r)

  read_decoded-Adds :
      (mid : ℕ) (b : Batch) (o : Outcome (Option IndexJob) × Redis)
      → Decodes c w e o
      → Adds c w e 1 b (read_decoded c w e mid b o)
  read_decoded-Adds mid b (ok none, r) h = nothing_added c w e b r
  read_decoded-Adds mid b (ok (some job), r) h = one_added c w e mid job b r h
  read_decoded-Adds mid b (raise x, r) h = tt

  read_payload-Adds :
      (mid : ℕ) (b : Batch) (r : Redis) (o : Option String)
      → Adds c w e 1 b (read_payload c w e mid b r o)
  read_payload-Adds mid b r none = nothing_added c w e b r
  read_payload-Adds mid b r (some payload) =
      read_decoded-Adds mid b (decode c w e mid payload r) (decode-Decodes c w e mid payload r)

  read_one-Adds : (mid : ℕ) (b : Batch) (r : Redis) → Adds c w e 1 b (read_one c w e mid b r)
  unfolding read_one
  read_one-Adds mid b r = read_payload-Adds mid b r (find_entry r.stream mid)

  then-Adds :
      (n : ℕ) (b b' : Batch) (o : Outcome Batch × Redis)
      → length b'.jobs ≤ 1 + length b.jobs
      → (All (IsDecoded c w e) b.jobs → All (IsDecoded c w e) b'.jobs)
      → Adds c w e n b' o
      → Adds c w e (suc n) b o
  then-Adds n b b' (ok b'', r) few kept (few', kept') =
      (omega (arith, few, few'), λ a. kept' (kept a))
  then-Adds n b b' (raise x, r) few kept h = tt

  read_on-Adds :
      (n : ℕ) (rest : Batch → Redis → Outcome Batch × Redis)
      → ((b : Batch) (r : Redis) → Adds c w e n b (rest b r))
      → (b : Batch) (o : Outcome Batch × Redis) → Adds c w e 1 b o
      → Adds c w e (suc n) b (read_on c w e rest o)
  read_on-Adds n rest k b (ok b', r) (few, kept) = then-Adds n b b' (rest b' r) few kept (k b' r)
  read_on-Adds n rest k b (raise x, r) h = tt

  read_all-Adds :
      (mids : List ℕ) (b : Batch) (r : Redis) → Adds c w e (length mids) b (read_all c w e mids b r)
  unfolding read_all
  read_all-Adds [] b r = (omega arith, λ a. a)
  read_all-Adds (mid ∷ mids) b r =
      read_on-Adds (length mids) (read_all c w e mids) (read_all-Adds mids) b
        (read_one c w e mid b r) (read_one-Adds mid b r)

  length-xreadgroup : (n : ℕ) (r : Redis) → length (xreadgroup c w e n r).0 ≤ n
  unfolding xreadgroup
  length-xreadgroup zero r = omega arith
  length-xreadgroup (suc n) r = elim (Option-cases (first_new r.undelivered r.stream)) [
    | inl q ↦ rw (xreadgroup, q) (omega arith)
    | inr (i, q) ↦ rw (xreadgroup, q) (omega (arith, length-xreadgroup n (deliver w.name r)))
  ]

  -- A batch of `consume`.
  abbrev Consumed : ℕ → Outcome Batch × Redis → Type 0
  Consumed count (ok b, r) = (length b.jobs < 2 * count) × All (IsDecoded c w e) b.jobs
  Consumed count (raise x, r) = Unit

  new-Consumed :
      (n count : ℕ) (b : Batch) (o : Outcome Batch × Redis)
      → n ≤ count
      → length b.jobs < count
      → All (IsDecoded c w e) b.jobs
      → Adds c w e n b o
      → Consumed count o
  new-Consumed n count b (ok b', r) h small a (few, kept) = (omega (arith, h, small, few), kept a)
  new-Consumed n count b (raise x, r) h small a k = tt

  after_replay-Consumed :
      (count : ℕ) (o : Outcome (Bool × Batch) × Redis)
      → 1 ≤ count
      → Replayed count o
      → Consumed count (after_replay c w e count o)
  after_replay-Consumed count (ok (true, b), r) p (small, a) = (omega (arith, p, small), a)
  after_replay-Consumed count (ok (false, b), r) p (small, a) =
      let (ids, r') = xreadgroup c w e count r in
      new-Consumed (length ids) count b (read_all c w e ids b r') (length-xreadgroup count r) small
        a (read_all-Adds ids b r')
  after_replay-Consumed count (raise x, r) p h = tt

  after_cleanup-Consumed :
      (count : ℕ) (cursor : Option ℕ) (o : Outcome (Unit {0}) × Redis)
      → 1 ≤ count
      → Consumed count (after_cleanup c w e count cursor o)
  after_cleanup-Consumed count cursor (raise x, r) p = tt
  after_cleanup-Consumed count cursor (ok u, r) p =
      let pending = xpending_range cursor r in
      let short = ltb (length pending) recovery_batch_size in
      after_replay-Consumed count
        (replay c w e r.now count short pending (record { jobs = []; cursor = cursor }) r) p
        (replay-Replayed r.now count short pending (record { jobs = []; cursor = cursor }) r p tt)

  taken :
      (count : ℕ) (o : Outcome Batch × Redis) (b : Batch) (r : Redis)
      → o ≡ (ok b, r)
      → Consumed count o
      → (length b.jobs < 2 * count) × All (IsDecoded c w e) b.jobs
  taken count o b r q h = subst (Consumed count) q h

  -- When `consume` returns, it returns fewer messages than twice the count, so at most one for a count of one, and the job
  -- of each was decoded from a payload.
  pub consume_lem :
      (count block_ms : ℕ) (cursor : Option ℕ) (r r' : Redis) (b : Batch)
      → consume c w e count block_ms cursor r ≡ (ok b, r')
      → (length b.jobs < 2 * count) × All (IsDecoded c w e) b.jobs
  unfolding consume
  consume_lem count block_ms cursor r r' b q = elim (Bool-cases (ltb count 1 || ltb block_ms 1)) [
    | inl bad ↦ absurd (
        refused (
          sym (
            ap
              (λ t.
                if t
                then refusal r
                else after_cleanup c w e count cursor (cleanup_finished e.to_clean r))
              bad)
          ∙ q))
    | inr good ↦
        taken count (after_cleanup c w e count cursor (cleanup_finished e.to_clean r)) b r'
          (sym (
              ap
                (λ t.
                  if t
                  then refusal r
                  else after_cleanup c w e count cursor (cleanup_finished e.to_clean r))
                good)
            ∙ q)
          (after_cleanup-Consumed count cursor (cleanup_finished e.to_clean r)
            (positive count block_ms good))
  ]
    where
      refused : ¬ (refusal r ≡ (ok b, r'))
      refused h = cc

      positive : (a n : ℕ) → (ltb a 1 || ltb n 1) ≡ false → 1 ≤ a
      positive a n h = ground arith
