-- ===== src/Relay/Storage/Saved.antt =====
-- `save_sync_batch` on the table, and `load_sync_batch` of the table that it left.
use mathlib.Core.Option
use cga.Prelude.{
  ℕ, suc, ◌≡◌, refl, ◌⊎◌, inl, inr, sym, ap, ◌∙◌, String, Bool, true, false, Option, none, some,
  List, [], ◌∷◌, ◌++◌, map, ltb, arith, Bool-cases, Option-cases, ==-refl,
}
use cga.Text.{Text, text_eq, text_eq_refl, text_eq_sound}
use cga.Http.{ok, ◌>>=◌, require, >>=-eq-ok, require-eq-ok, Result-cases}
use cga.Json.{Json, str, arr, obj, Items, items_of, Fields, get}
use cga.Relay.Payload.{canonical_payload}
use cga.Relay.Payload.Batch.{canonical_payload-IsBatch}
use cga.Relay.Storage.{
  metadata_of, Row, Table, Codec, is_at, find_row, batch_id_of, insert_batch, confirm,
  save_sync_batch, is_batch_id, load_sync_batch,
}

-- The row that the INSERT adds.
abbrev new_row : ℕ → Text → Text → String → Table → Row
new_row project batch canonical now t = record {
  id = t.next_id;
  project_db_id = project;
  batch_id = batch;
  payload_json = canonical;
  created_at = now;
}

find_row-append :
    (project : ℕ) (batch : Text) (rows : List Row) (row : Row)
    → find_row project batch rows ≡ none
    → is_at project batch row ≡ true
    → find_row project batch (rows ++ row ∷ []) ≡ some row
unfolding find_row
find_row-append project batch [] row h e = ground arith
find_row-append project batch (x ∷ xs) row h e = elim (Bool-cases (is_at project batch x)) [
  | inl here ↦ ground arith
  | inr not_here ↦ ground (arith, find_row-append project batch xs row)
]

find_row-keeps :
    (project : ℕ) (batch : Text) (rows more : List Row) (row : Row)
    → find_row project batch rows ≡ some row
    → find_row project batch (rows ++ more) ≡ some row
unfolding find_row
find_row-keeps project batch [] more row h = ground arith
find_row-keeps project batch (x ∷ xs) more row h = elim (Bool-cases (is_at project batch x)) [
  | inl here ↦ ground arith
  | inr not_here ↦ ground (arith, find_row-keeps project batch xs more row)
]

is_at-own :
    (project : ℕ) (batch canonical : Text) (now : String) (t : Table)
    → is_at project batch (new_row project batch canonical now t) ≡ true
is_at-own project batch canonical now t = ground (arith, ==-refl project, text_eq_refl batch)

find_row-insert_batch :
    (project : ℕ) (batch canonical : Text) (now : String) (t : Table)
    → find_row project batch (insert_batch project batch canonical now t).rows
      ≡ elim (find_row project batch t.rows) [
        | none ↦ some (new_row project batch canonical now t)
        | some row ↦ some row
      ]
unfolding insert_batch
find_row-insert_batch project batch canonical now t =
    elim (Option-cases (find_row project batch t.rows)) [
      | inl missing ↦
          rw (insert_batch, missing)
            (find_row-append project batch t.rows (new_row project batch canonical now t) missing
              (is_at-own project batch canonical now t))
      | inr (row, found) ↦ rw (insert_batch, found) found
    ]

insert_batch-keeps :
    (project other : ℕ) (batch batch' canonical : Text) (now : String) (t : Table) (row : Row)
    → find_row other batch' t.rows ≡ some row
    → find_row other batch' (insert_batch project batch canonical now t).rows ≡ some row
unfolding insert_batch
insert_batch-keeps project other batch batch' canonical now t row h =
    elim (Option-cases (find_row project batch t.rows)) [
      | inl missing ↦
          rw (insert_batch, missing)
            (find_row-keeps other batch' t.rows (new_row project batch canonical now t ∷ []) row h)
      | inr (found, e) ↦ rw (insert_batch, e) h
    ]

-- A call that returned a receipt: what it checked, and the row that it confirmed.
pub record IsSaved (c : Codec) (project : ℕ) (payload : Json) (batch : Text) (t' : Table)
    : Type 0 where
  pub positive : ltb 0 project ≡ true
  pub canonical : Text
  pub accepted : canonical_payload c.dumps c.sha256 payload ≡ ok canonical
  pub names : batch ≡ batch_id_of c project canonical
  pub row : Row
  pub found : find_row project batch t'.rows ≡ some row
  pub same_text : text_eq row.payload_json canonical ≡ true

confirmed :
    (o : Option Row) (batch canonical b : Text)
    → confirm o batch canonical ≡ ok b
    → (row : Row) × (o ≡ some row) × (text_eq row.payload_json canonical ≡ true) × (b ≡ batch)
confirmed none batch canonical b h = cc
confirmed (some row) batch canonical b h = elim (Bool-cases (text_eq row.payload_json canonical)) [
  | inl e ↦ (row, refl, e, ground arith)
  | inr e ↦ ground arith
]

Saved-of :
    (c : Codec) (busy : Bool) (project : ℕ) (payload : Json) (now : String) (t t' : Table)
    (batch : Text)
    → save_sync_batch c busy project payload now t ≡ (ok batch, t')
    → IsSaved c project payload batch t'
unfolding save_sync_batch
Saved-of c busy project payload now t t' batch h =
    elim (Result-cases
      (require (ltb 0 project) 400 >>= λ _. canonical_payload c.dumps c.sha256 payload)) [
        | inl (canonical, e) ↦ elim (Bool-cases busy) [
          | inl is_busy ↦ ground arith
          | inr free ↦
              let (u, positive, accepted) = >>=-eq-ok (require (ltb 0 project) 400) _ e in
              let same : insert_batch project (batch_id_of c project canonical) canonical now t
                  ≡ t' =
                ground arith in
              let said : confirm (find_row project (batch_id_of c project canonical) t'.rows)
                    (batch_id_of c project canonical) canonical
                  ≡ ok batch =
                ground arith in
              let (row, found, same_text, names) =
                confirmed _ (batch_id_of c project canonical) canonical batch said in
              record {
                positive = require-eq-ok _ 400 positive;
                canonical = canonical;
                accepted = accepted;
                names = names;
                row = row;
                found = ap (λ b. find_row project b t'.rows) names ∙ found;
                same_text = same_text;
              }
        ]
        | inr (inl (s, e)) ↦ ground arith
        | inr (inr e) ↦ ground arith
      ]

-- After a call that returned a receipt, to save the same payload of the same project again,
-- outside a transaction, returns the same batch ID and adds no row.
pub save-save :
    (c : Codec) (busy : Bool) (project : ℕ) (payload : Json) (now later : String) (t t' : Table)
    (batch : Text)
    → save_sync_batch c busy project payload now t ≡ (ok batch, t')
    → save_sync_batch c false project payload later t'
      ≡ (ok batch, record t' { next_id = suc t'.next_id })
unfolding save_sync_batch insert_batch
save-save c busy project payload now later t t' batch h =
    let s = Saved-of c busy project payload now t t' batch h in
    ground (arith, s.positive, s.accepted, s.names, s.found, s.same_text)

-- What the codec must satisfy for a batch to be read back. `json.loads` reads what the canonical `json.dumps` wrote, with
-- the keys of every object sorted: an object has the same keys with the values sorted, an array the same items,
-- sorted, and a text is itself. A SHA-256 hex digest is 64 lowercase hexadecimal digits.
pub record IsCodec (c : Codec) : Type 0 where
  pub sorted : Json → Json
  pub sorted-obj :
      (fs : Fields)
      → (gs : Fields) × (sorted (obj fs) ≡ obj gs)
        × ((key : String) → get gs key ≡ Option.map sorted (get fs key))
  pub sorted-arr :
      (vs : Items)
      → (ws : Items) × (sorted (arr vs) ≡ arr ws) × (items_of ws ≡ map sorted (items_of vs))
  pub sorted-str : (t : Text) → sorted (str t) ≡ str t
  pub loads-dumps : (v : Json) (t : Text) → c.dumps v ≡ some t → c.loads t ≡ some (sorted v)
  pub is_hex : (t : Text) → is_batch_id (c.sha256 t) ≡ true

batch_id_of_hex :
    (c : Codec)
    → IsCodec c
    → (project : ℕ) (canonical : Text) → is_batch_id (batch_id_of c project canonical) ≡ true
unfolding batch_id_of
batch_id_of_hex c codec project canonical = codec.is_hex _

load_found :
    (c : Codec) (project : ℕ) (fs : Fields) (batch : Text) (t : Table) (row : Row)
    → ltb 0 project ≡ true
    → is_batch_id batch ≡ true
    → find_row project batch t.rows ≡ some row
    → text_eq (batch_id_of c project row.payload_json) batch ≡ true
    → c.loads row.payload_json ≡ some (obj fs)
    → load_sync_batch c project batch t
      ≡ ok (some (record { metadata = metadata_of row; payload = fs }))
unfolding load_sync_batch
load_found c project fs batch t row positive hex found same read =
    rw (load_sync_batch, positive, hex, found, same, read) refl

-- A batch that was saved is read back under its receipt, from the table that the call left, with the sorted form of the
-- payload that was sent: an object that has, under every key, the sorted value that the payload has there, and no key
-- besides. The codec reads what it wrote with its keys sorted, and its digests are 64 lowercase hexadecimal digits.
pub load-save :
    (c : Codec) (codec : IsCodec c) (busy : Bool) (project : ℕ) (fs : Fields) (now : String)
    (t t' : Table) (batch : Text)
    → save_sync_batch c busy project (obj fs) now t ≡ (ok batch, t')
    → (row : Row) × (gs : Fields) × (find_row project batch t'.rows ≡ some row)
      × (load_sync_batch c project batch t'
          ≡ ok (some (record { metadata = metadata_of row; payload = gs })))
      × ((key : String) → get gs key ≡ Option.map codec.sorted (get fs key))
unfolding load_sync_batch
load-save c codec busy project fs now t t' batch h =
    let s = Saved-of c busy project (obj fs) now t t' batch h in
    let b = canonical_payload-IsBatch c.dumps c.sha256 (obj fs) s.canonical s.accepted in
    let (gs, object, keys) = codec.sorted-obj fs in
    let text : s.row.payload_json ≡ s.canonical =
      text_eq_sound s.row.payload_json s.canonical s.same_text in
    let hex : is_batch_id batch ≡ true =
      ap is_batch_id s.names ∙ batch_id_of_hex c codec project s.canonical in
    let read : c.loads s.row.payload_json ≡ some (obj gs) =
      ap c.loads text ∙ codec.loads-dumps (obj fs) s.canonical b.dumped ∙ ap some object in
    let same : text_eq (batch_id_of c project s.row.payload_json) batch ≡ true =
      ap (λ u. text_eq u batch) (ap (batch_id_of c project) text ∙ sym s.names)
      ∙ text_eq_refl batch in
    (
      s.row,
      gs,
      s.found,
      load_found c project gs batch t' s.row s.positive hex s.found same read,
      keys,
    )

-- What a call does to the table: nothing, or one INSERT.
pub save_writes :
    (c : Codec) (busy : Bool) (project : ℕ) (payload : Json) (now : String) (t : Table)
    → ((save_sync_batch c busy project payload now t).1 ≡ t)
      ⊎ ((batch : Text) × (canonical : Text) × ((save_sync_batch c busy project payload now t).1
            ≡ insert_batch project batch canonical now t))
unfolding save_sync_batch
save_writes c busy project payload now t =
    elim (Result-cases
      (require (ltb 0 project) 400 >>= λ _. canonical_payload c.dumps c.sha256 payload)) [
        | inl (canonical, e) ↦ elim (Bool-cases busy) [
          | inl is_busy ↦ inl (ground arith)
          | inr free ↦ inr (batch_id_of c project canonical, canonical, ground arith)
        ]
        | inr (inl (s, e)) ↦ inl (ground arith)
        | inr (inr e) ↦ inl (ground arith)
      ]

-- No call takes a stored batch away or changes it, whatever the call returns.
pub save_keeps :
    (c : Codec) (busy : Bool) (project other : ℕ) (payload : Json) (now : String) (t : Table)
    (batch : Text) (row : Row)
    → find_row other batch t.rows ≡ some row
    → find_row other batch (save_sync_batch c busy project payload now t).1.rows ≡ some row
save_keeps c busy project other payload now t batch row h =
    elim (save_writes c busy project payload now t) [
      | inl same ↦ ap (λ u. find_row other batch u.rows) same ∙ h
      | inr (batch', canonical, same) ↦
          ap (λ u. find_row other batch u.rows) same
          ∙ insert_batch-keeps project other batch' batch canonical now t row h
    ]
