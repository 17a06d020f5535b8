-- ===== src/Schedules/Table/Picked.antt =====
-- `get_due_scheduled_tasks`: which tasks a round takes, and in which order.
use cga.Prelude.{
  ℕ, zero, suc, ◌≤◌, ◌<◌, ◌≡◌, refl, sym, ap, ◌∙◌, min, max, Bool, true, false, ◌&&◌, not, List, [],
  ◌∷◌, length, leb, any, keep, take, sort_by, any-sort_by, IsOrdered, sort_by-IsOrdered, All, arith,
}
use cga.Schedules.Table.{Task, Table, is_due, earlier, get_due_scheduled_tasks}

-- A task that is enabled and whose time has come.
abbrev pub IsReady : ℕ → Task → Type 0
IsReady now x = (x.body.enabled ≡ true) × (x.next_run_at ≤ now)

-- Times that do not decrease, and at one time IDs that do not.
abbrev pub InTurn : List Task → Type 0
InTurn [] = Unit
InTurn (x ∷ []) = Unit
InTurn (x ∷ y ∷ xs) =
    (x.next_run_at ≤ y.next_run_at)
    × (x.next_run_at ≡ y.next_run_at → x.id ≤ y.id)
    × InTurn (y ∷ xs)

take-IsReady :
    (now n : ℕ) (xs : List Task)
    → any (λ x. not (is_due now x)) xs ≡ false
    → All (IsReady now) (take n xs)
unfolding any is_due
take-IsReady now zero xs h = tt
take-IsReady now (suc n) [] h = tt
take-IsReady now (suc n) (x ∷ xs) h =
    ((ground (arith, h), ground (arith, h)), take-IsReady now n xs (ground (arith, h)))

keep_passes : (p : Task → Bool) (xs : List Task) → any (λ x. not (p x)) (keep p xs) ≡ false
unfolding any keep
keep_passes p [] = refl
keep_passes p (x ∷ xs) = ground (arith, keep_passes p xs)

take-InTurn : (n : ℕ) (xs : List Task) → IsOrdered earlier xs → InTurn (take n xs)
take-InTurn zero xs o = tt
take-InTurn (suc n) [] o = tt
take-InTurn (suc zero) (x ∷ xs) o = tt
take-InTurn (suc (suc n)) (x ∷ []) o = tt
take-InTurn (suc (suc n)) (x ∷ y ∷ xs) (h, o) =
    (ground (arith, h), λ e. ground (arith, h, e), take-InTurn (suc n) (y ∷ xs) o)

length-take : {A : Type 0} (n : ℕ) (xs : List A) → length (take n xs) ≤ n
length-take zero xs = omega arith
length-take (suc n) [] = omega arith
length-take (suc n) (x ∷ xs) = omega (arith, length-take n xs)

take_all : {A : Type 0} (n : ℕ) (xs : List A) → length (take n xs) < n → take n xs ≡ xs
take_all zero xs h = absurd (omega (arith, h))
take_all (suc n) [] h = refl
take_all (suc n) (x ∷ xs) h = ap (λ ys. x ∷ ys) (take_all n xs (omega (arith, h)))

any-take :
    {A : Type 0} (p : A → Bool) (n : ℕ) (xs : List A) → any p (take n xs) ≡ true → any p xs ≡ true
unfolding any
any-take p zero xs h = ground arith
any-take p (suc n) [] h = ground arith
any-take p (suc n) (x ∷ xs) h = ground (arith, any-take p n xs)

any-keep :
    (now : ℕ) (p : Task → Bool) (xs : List Task)
    → any p (keep (is_due now) xs) ≡ any (λ x. (x.body.enabled && leb x.next_run_at now) && p x) xs
unfolding any keep is_due
any-keep now p [] = refl
any-keep now p (x ∷ xs) = ground (arith, any-keep now p xs)

any_some :
    (now : ℕ) (p : Task → Bool) (xs : List Task)
    → any (λ x. (x.body.enabled && leb x.next_run_at now) && p x) xs ≡ true
    → any p xs ≡ true
unfolding any
any_some now p [] h = ground arith
any_some now p (x ∷ xs) h = ground (arith, any_some now p xs)

earlier_total : (a b : Task) → earlier a b ≡ false → earlier b a ≡ true
earlier_total a b h = ground arith

-- The tasks that a round takes are tasks of the table, enabled, with a time that has come, at most the limit or fifty, in
-- the order of their times and, at one time, of their IDs; and when they are fewer than the limit and fifty allow, every
-- enabled task of the table whose time has come is among them.
pub get_due_scheduled_tasks_lem :
    (now limit : ℕ) (t : Table)
    → let tasks = get_due_scheduled_tasks now limit t in
      All (IsReady now) tasks
      × InTurn tasks
      × (length tasks ≤ max 1 (min limit 50))
      × ((p : Task → Bool) → any p tasks ≡ true → any p t.tasks ≡ true)
      × (length tasks < max 1 (min limit 50)
          → (p : Task → Bool)
          → any (λ x. (x.body.enabled && leb x.next_run_at now) && p x) t.tasks ≡ any p tasks)
unfolding get_due_scheduled_tasks
get_due_scheduled_tasks_lem now limit t =
    let due = keep (is_due now) t.tasks in
    let n = max 1 (min limit 50) in
    let sorted = sort_by earlier due in
    (
      take-IsReady now n sorted
          (any-sort_by earlier (λ x. not (is_due now x)) due ∙ keep_passes (is_due now) t.tasks),
      take-InTurn n sorted (sort_by-IsOrdered earlier earlier_total due),
      length-take n sorted,
      λ p h.
          any_some now p t.tasks (
            sym (any-keep now p t.tasks) ∙ sym (any-sort_by earlier p due) ∙ any-take p n sorted h),
      λ few p.
          sym (any-keep now p t.tasks)
          ∙ sym (any-sort_by earlier p due)
          ∙ sym (ap (any p) (take_all n sorted few)),
    )
