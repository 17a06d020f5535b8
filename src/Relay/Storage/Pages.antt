-- ===== src/Relay/Storage/Pages.antt =====
-- The order of the table's IDs, and the pages of `list_sync_batches` over a table in that order.
use cga.Prelude.{
  ℕ, zero, suc, ◌<◌, ◌≤◌, ◌≡◌, refl, sym, ap, ◌∙◌, subst, inl, inr, String, Bool, true, ◌&&◌, List,
  [], ◌∷◌, ◌++◌, ◌==◌, ltb, leb, keep, take, map, drop, All, arith, Bool-cases, Option-cases,
}
use cga.Text.{Text}
use cga.Http.{ok_eq, ok, require, >>=-eq-ok, require-eq-ok}
use cga.Json.{Json}
use cga.Relay.Storage.Saved.{save_writes}
use cga.Relay.Storage.{
  Metadata, metadata_of, Row, Table, Codec, find_row, insert_batch, save_sync_batch, place,
  order_by_id, rows_after, list_sync_batches,
}

-- All the IDs are above a number.
abbrev pub IsAbove : ℕ → List Row → Type 0
IsAbove n = All (λ row. n < row.id)

-- The IDs grow along the rows.
abbrev pub IsRising : List Row → Type 0
IsRising [] = Unit
IsRising (x ∷ xs) = IsAbove x.id xs × IsRising xs

-- The rows stand in the order of their IDs, and the sequence is ahead of them all.
pub record IsTable (t : Table) : Type 0 where
  pub rising : IsRising t.rows
  pub ahead : All (λ row. row.id < t.next_id) t.rows

IsAbove-weaken : (m n : ℕ) (rows : List Row) → m ≤ n → IsAbove n rows → IsAbove m rows
IsAbove-weaken m n [] le a = tt
IsAbove-weaken m n (x ∷ xs) le (h, a) = (omega arith, IsAbove-weaken m n xs le a)

keep-IsAbove : (p : Row → Bool) (n : ℕ) (rows : List Row) → IsAbove n rows → IsAbove n (keep p rows)
unfolding keep
keep-IsAbove p n [] a = tt
keep-IsAbove p n (x ∷ xs) (h, a) = elim (Bool-cases (p x)) [
  | inl e ↦ rw (e) (h, keep-IsAbove p n xs a)
  | inr e ↦ rw (e) (keep-IsAbove p n xs a)
]

keep-IsRising : (p : Row → Bool) (rows : List Row) → IsRising rows → IsRising (keep p rows)
unfolding keep
keep-IsRising p [] r = tt
keep-IsRising p (x ∷ xs) (a, r) = elim (Bool-cases (p x)) [
  | inl e ↦ rw (e) (keep-IsAbove p x.id xs a, keep-IsRising p xs r)
  | inr e ↦ rw (e) (keep-IsRising p xs r)
]

-- Rows that are in order stay as they are.
place_first : (x : Row) (rows : List Row) → IsAbove x.id rows → place x rows ≡ x ∷ rows
unfolding place
place_first x [] a = refl
place_first x (y ∷ ys) (h, a) = ground arith

order_rising : (rows : List Row) → IsRising rows → order_by_id rows ≡ rows
unfolding order_by_id
order_rising [] r = refl
order_rising (x ∷ xs) (a, r) = ap (place x) (order_rising xs r) ∙ place_first x xs a

-- The ID of the last row.
abbrev last_id : ℕ → List Row → ℕ
last_id after [] = after
last_id after (x ∷ xs) = last_id x.id xs

last_id_above :
    (n limit : ℕ) (rows : List Row)
    → IsAbove n rows
    → IsRising rows
    → n ≤ last_id n (take limit rows)
last_id_above n zero rows a r = omega arith
last_id_above n (suc limit) [] a r = omega arith
last_id_above n (suc limit) (x ∷ xs) (h, a) (b, r) = omega (arith, last_id_above x.id limit xs b r)

after_id : ℕ → Row → Bool
after_id n row = ltb n row.id

keep_all : (n : ℕ) (rows : List Row) → IsAbove n rows → keep (after_id n) rows ≡ rows
unfolding keep after_id
keep_all n [] a = refl
keep_all n (x ∷ xs) (h, a) = ground (arith, keep_all n xs a)

-- What is left after a page.
keep-last :
    (n limit : ℕ) (rows : List Row)
    → IsAbove n rows
    → IsRising rows
    → keep (after_id (last_id n (take limit rows))) rows ≡ drop limit rows
unfolding keep after_id
keep-last n zero rows a r = keep_all n rows a
keep-last n (suc limit) [] a r = refl
keep-last n (suc limit) (x ∷ xs) (h, a) (b, r) =
    ground (arith, last_id_above x.id limit xs b r, keep-last x.id limit xs b r)

module _ (project : ℕ) where
  of_project : ℕ → Row → Bool
  of_project n row = (row.project_db_id == project) && ltb n row.id

  keep_later :
      (m n : ℕ) (rows : List Row)
      → m ≤ n
      → keep (of_project n) rows ≡ keep (after_id n) (keep (of_project m) rows)
  unfolding keep of_project after_id
  keep_later m n [] le = refl
  keep_later m n (x ∷ xs) le = ground (arith, keep_later m n xs le)

  kept-IsAbove : (n : ℕ) (rows : List Row) → IsAbove n (keep (of_project n) rows)
  unfolding keep of_project
  kept-IsAbove n [] = tt
  kept-IsAbove n (x ∷ xs) = elim (Bool-cases (of_project n x)) [
    | inl e ↦ rw (e) (above n x e, kept-IsAbove n xs)
    | inr e ↦ rw (e) (kept-IsAbove n xs)
  ]
    where
      above : (n : ℕ) (x : Row) → of_project n x ≡ true → n < x.id
      above n x e = ground arith

  rows_after_rising :
      (n : ℕ) (rows : List Row)
      → IsRising rows
      → rows_after project n rows ≡ keep (of_project n) rows
  unfolding rows_after of_project
  rows_after_rising n rows r = order_rising _ (keep-IsRising _ rows r)

  -- The rows after a page's last ID are the rows after the page.
  rows_after-last :
      (after limit : ℕ) (rows : List Row)
      → IsRising rows
      → rows_after project (last_id after (take limit (rows_after project after rows))) rows
        ≡ drop limit (rows_after project after rows)
  rows_after-last after limit rows r = rw (rows_after_rising after rows r) (
      rows_after_rising _ rows r
      ∙ keep_later after _ rows
          (last_id_above after limit _ (kept-IsAbove after rows) (keep-IsRising _ rows r))
      ∙ keep-last after limit _ (kept-IsAbove after rows) (keep-IsRising _ rows r))

-- The ID to pass for the next page: "Pass the last returned ID as after_id."
abbrev pub last_returned : ℕ → List Metadata → ℕ
last_returned after [] = after
last_returned after (x ∷ xs) = last_returned x.id xs

last_returned-map :
    (after : ℕ) (rows : List Row) → last_returned after (map metadata_of rows) ≡ last_id after rows
last_returned-map after [] = refl
last_returned-map after (x ∷ xs) = last_returned-map x.id xs

-- Pages leave no batch out: of a table in order, the page that follows the last ID of a page that was returned, with
-- a limit that is allowed, holds the project's next rows, from the one where the first page stopped.
pub list-list :
    (project after limit limit' : ℕ) (t : Table) (page : List Metadata)
    → IsTable t
    → 1 ≤ limit'
    → limit' ≤ 100
    → list_sync_batches project after limit t ≡ ok page
    → list_sync_batches project (last_returned after page) limit' t
      ≡ ok (map metadata_of (take limit' (drop limit (rows_after project after t.rows))))
unfolding list_sync_batches
list-list project after limit limit' t page table some_limit small h =
    let rows = take limit (rows_after project after t.rows) in
    let (u, positive, rest) = >>=-eq-ok (require (ltb 0 project) 400) _ h in
    let (v, limits, rest₂) = >>=-eq-ok (require (leb 1 limit && leb limit 100) 400) _ rest in
    let last : last_returned after page ≡ last_id after rows =
      ap (last_returned after) (sym (ok_eq _ page rest₂)) ∙ last_returned-map after rows in
    let next : rows_after project (last_returned after page) t.rows
        ≡ drop limit (rows_after project after t.rows) =
      ap (λ n. rows_after project n t.rows) last
      ∙ rows_after-last project after limit t.rows table.rising in
    ground (arith, require-eq-ok (ltb 0 project) 400 positive, next)

append-IsAbove :
    (m : ℕ) (rows : List Row) (row : Row)
    → IsAbove m rows
    → m < row.id
    → IsAbove m (rows ++ row ∷ [])
append-IsAbove m [] row a h = (h, tt)
append-IsAbove m (x ∷ xs) row (b, a) h = (b, append-IsAbove m xs row a h)

append-IsRising :
    (rows : List Row) (row : Row)
    → IsRising rows
    → All (λ x. x.id < row.id) rows
    → IsRising (rows ++ row ∷ [])
append-IsRising [] row r a = (tt, tt)
append-IsRising (x ∷ xs) row (b, r) (h, a) =
    (append-IsAbove x.id xs row b h, append-IsRising xs row r a)

append_ahead :
    (n : ℕ) (rows : List Row) (row : Row)
    → All (λ x. x.id < n) rows
    → row.id ≡ n
    → All (λ x. x.id < suc n) (rows ++ row ∷ [])
append_ahead n [] row a e = (omega (arith, e), tt)
append_ahead n (x ∷ xs) row (h, a) e = (omega (arith, h), append_ahead n xs row a e)

ahead_more : (n : ℕ) (rows : List Row) → All (λ x. x.id < n) rows → All (λ x. x.id < suc n) rows
ahead_more n [] a = tt
ahead_more n (x ∷ xs) (h, a) = (omega (arith, h), ahead_more n xs a)

insert_batch-IsTable :
    (project : ℕ) (batch canonical : Text) (now : String) (t : Table)
    → IsTable t
    → IsTable (insert_batch project batch canonical now t)
unfolding insert_batch
insert_batch-IsTable project batch canonical now t table =
    elim (Option-cases (find_row project batch t.rows)) [
      | inl missing ↦
          rw (insert_batch, missing)
            (record {
              rising = append-IsRising t.rows _ table.rising table.ahead;
              ahead = append_ahead t.next_id t.rows _ table.ahead refl;
            })
      | inr (row, found) ↦
          rw (insert_batch, found)
            (record { rising = table.rising; ahead = ahead_more t.next_id t.rows table.ahead })
    ]

-- Every call, whatever it returns, leaves the rows in the order of their IDs and the sequence
-- ahead of them, if they were so before.
pub save-IsTable :
    (c : Codec) (busy : Bool) (project : ℕ) (payload : Json) (now : String) (t : Table)
    → IsTable t
    → IsTable (save_sync_batch c busy project payload now t).1
save-IsTable c busy project payload now t table = elim (save_writes c busy project payload now t) [
  | inl same ↦ subst IsTable (sym same) table
  | inr (batch, canonical, same) ↦
      subst IsTable (sym same) (insert_batch-IsTable project batch canonical now t table)
]
