-- ===== src/Relay/Storage.antt =====
-- `save_sync_batch`, `load_sync_batch` and `list_sync_batches` over the table `relay_sync_batches`.
pub mod Saved
pub mod Pages
use cga.Prelude.{
  ℕ, zero, suc, String, Bool, true, false, ◌&&◌, ◌||◌, not, Option, none, some, List, [], ◌∷◌, ◌++◌,
  ◌==◌, leb, ltb, length, all, keep, take, map, if◌then◌else◌,
}
use cga.Text.{Text, text_eq, decimal}
use cga.Http.{Result, ok, http, error, ◌>>=◌, ◌>>◌, require}
use cga.Json.{Json, obj, Fields}
use cga.Relay.Payload.{canonical_payload}

pub record Row : Type 0 where
  pub id : ℕ
  pub project_db_id : ℕ
  pub batch_id : Text
  pub payload_json : Text
  pub created_at : String

-- The table, with the next value of the sequence of its IDs.
pub record Table : Type 0 where
  pub rows : List Row
  pub next_id : ℕ

-- What the server uses of other code: `json.dumps` in canonical form, `json.loads`, and SHA-256.
pub record Codec : Type 0 where
  pub dumps : Json → Option Text
  pub loads : Text → Option Json
  pub sha256 : Text → Text

abbrev pub is_at : ℕ → Text → Row → Bool
is_at project batch row = (row.project_db_id == project) && text_eq row.batch_id batch

-- The row of a project and a batch ID, which are unique together.
unfoldable pub find_row : ℕ → Text → List Row → Option Row
find_row project batch [] = none
find_row project batch (row ∷ rows) =
    if is_at project batch row then some row else find_row project batch rows

-- `sha256(f"{project_db_id}\n{canonical}")`
unfoldable pub batch_id_of : Codec → ℕ → Text → Text
batch_id_of c project canonical = c.sha256 (decimal project ++ 10 ∷ canonical)

-- The row lock of the project, which gives IDs in the order of commits, is left out: a call is one step.
-- The table after the INSERT; a conflict uses up a value of the sequence all the same.
unfoldable pub insert_batch : ℕ → Text → Text → String → Table → Table
insert_batch project batch canonical now t = elim (find_row project batch t.rows) [
  | none ↦ record {
    rows =
        t.rows
        ++ record {
          id = t.next_id;
          project_db_id = project;
          batch_id = batch;
          payload_json = canonical;
          created_at = now;
        }
          ∷ [];
    next_id = suc t.next_id;
  }
  | some row ↦ record t { next_id = suc t.next_id }
]

abbrev pub confirm : Option Row → Text → Text → Result Text
confirm none batch canonical = error
confirm (some row) batch canonical =
    if text_eq row.payload_json canonical then ok batch else http 409

-- The receipt is the batch ID. `busy` is whether the connection is in a transaction already.
unfoldable pub save_sync_batch : Codec → Bool → ℕ → Json → String → Table → Result Text × Table
unfolding insert_batch find_row batch_id_of
save_sync_batch c busy project payload now t =
    elim (require (ltb 0 project) 400 >>= λ _. canonical_payload c.dumps c.sha256 payload) [
      | ok canonical ↦
          let batch = batch_id_of c project canonical in
          let t' = insert_batch project batch canonical now t in
          if busy
          then (error, t)
          else (confirm (find_row project batch t'.rows) batch canonical, t')
      | http s ↦ (http s, t)
      | error ↦ (error, t)
    ]

abbrev is_lower_hex : ℕ → Bool
is_lower_hex c = (leb b'0' c && leb c b'9') || (leb b'a' c && leb c b'f')

-- `re.fullmatch(r"[a-f0-9]{64}", batch_id)`
unfoldable pub is_batch_id : Text → Bool
is_batch_id t = length t == 64 && all is_lower_hex t

-- What a listing tells of a batch, without its content.
pub record Metadata : Type 0 where
  pub id : ℕ
  pub project_db_id : ℕ
  pub batch_id : Text
  pub created_at : String

abbrev pub metadata_of : Row → Metadata
metadata_of row = record {
  id = row.id;
  project_db_id = row.project_db_id;
  batch_id = row.batch_id;
  created_at = row.created_at;
}

-- A stored batch: the metadata and the payload's fields.
pub record Stored : Type 0 where
  pub metadata : Metadata
  pub payload : Fields

abbrev pub decoded : Option Json → Row → Result (Option Stored)
decoded (some (obj fs)) row = ok (some (record { metadata = metadata_of row; payload = fs }))
decoded _ row = error

abbrev pub checked : Codec → ℕ → Text → Option Row → Result (Option Stored)
checked c project batch none = ok none
checked c project batch (some row) =
    if text_eq (batch_id_of c project row.payload_json) batch
    then decoded (c.loads row.payload_json) row
    else error

unfoldable pub load_sync_batch : Codec → ℕ → Text → Table → Result (Option Stored)
unfolding find_row batch_id_of is_batch_id
load_sync_batch c project batch t = do
  require (ltb 0 project) 400
  require (is_batch_id batch) 400
  checked c project batch (find_row project batch t.rows)

-- `ORDER BY id`
unfoldable pub place : Row → List Row → List Row
place x [] = x ∷ []
place x (y ∷ ys) = let rest = place x ys in if leb x.id y.id then x ∷ y ∷ ys else y ∷ rest

unfoldable pub order_by_id : List Row → List Row
unfolding place
order_by_id [] = []
order_by_id (x ∷ xs) = place x (order_by_id xs)

-- The rows of a project after an ID, in order.
unfoldable pub rows_after : ℕ → ℕ → List Row → List Row
unfolding order_by_id
rows_after project after rows =
    order_by_id (keep (λ row. (row.project_db_id == project) && ltb after row.id) rows)

unfoldable pub list_sync_batches : ℕ → ℕ → ℕ → Table → Result (List Metadata)
unfolding rows_after
list_sync_batches project after limit t = do
  require (ltb 0 project) 400
  require (leb 1 limit && leb limit 100) 400
  ok (map metadata_of (take limit (rows_after project after t.rows)))
