-- ===== src/Tests/Relay.antt =====
-- The relay at work: one batch saved, read back and listed.
mod SortedKeys
use mathlib.Core.Option
use cga.Prelude.{
  ℕ, String, zero, suc, ◌≡◌, refl, true, false, Option, none, some, [], ◌∷◌, arith, all,
  if◌then◌else◌, str_eq, eq_iff, any, keep, take, map, drop,
}
use cga.Text.{
  Text, text_leb, text_eq, has_text, utf8_size, decimal, split, join, replace_char, has_char,
}
use cga.Http.{ok}
use cga.Json.{Json, Fields, get, items_of, nil, cons, end, field, str, arr, obj}
use cga.Relay.Paths.{relative_path}
use cga.Relay.Paths.Safe.{IsSafePath, relative_path-IsSafePath}
use cga.Relay.Payload.{canonical_payload, check_tombstones, check_snapshots}
use cga.Relay.Payload.Batch.{IsBatch, canonical_payload-IsBatch}
use cga.Relay.Storage.{
  Row, Table, Codec, find_row, save_sync_batch, load_sync_batch, list_sync_batches, metadata_of,
  rows_after, is_batch_id, order_by_id, place,
}
use cga.Tests.Relay.SortedKeys.{place_field, sorted, zeros, dump_one, codec, codec-IsCodec}
use cga.Relay.Storage.Saved.{save-save, load-save, save_keeps, IsCodec}
use cga.Relay.Storage.Pages.{IsTable, save-IsTable, list-list}

-- "a\b"
abbrev windows_path : Text
windows_path = b'a' ∷ 92 ∷ b'b' ∷ []

-- "a/b"
abbrev posix_path : Text
posix_path = b'a' ∷ 47 ∷ b'b' ∷ []

-- The keys are not sorted.
abbrev batch_fields : Fields
batch_fields =
    field "tombstones" (arr (cons (str windows_path) nil)) (field "snapshots" (arr nil) end)

abbrev no_rows : Table
no_rows = record { rows = []; next_id = 1 }

abbrev saved_table : Table
saved_table = (save_sync_batch codec false 7 (obj batch_fields) "t0" no_rows).1

opened : Unit {0}
unfolding dump_one place_field sorted text_leb relative_path canonical_payload check_tombstones
    check_snapshots get items_of utf8_size split join replace_char has_char has_text any all
    save_sync_batch find_row list_sync_batches rows_after keep order_by_id place decimal text_eq
    is_batch_id
opened = tt

path_ok : relative_path (str windows_path) ≡ ok posix_path
unfolding opened
path_ok = refl

saved_ok :
    save_sync_batch codec false 7 (obj batch_fields) "t0" no_rows ≡ (ok (zeros 64), saved_table)
unfolding opened
saved_ok = refl

accepted_ok : canonical_payload codec.dumps codec.sha256 (obj batch_fields) ≡ ok windows_path
unfolding opened
accepted_ok = refl

page_ok : list_sync_batches 7 0 1 saved_table ≡ ok (map metadata_of saved_table.rows)
unfolding opened
page_ok = refl

relative_path-IsSafePath_example : IsSafePath posix_path
relative_path-IsSafePath_example = relative_path-IsSafePath (str windows_path) posix_path path_ok

canonical_payload-IsBatch_example : IsBatch codec.dumps codec.sha256 (obj batch_fields) windows_path
canonical_payload-IsBatch_example =
    canonical_payload-IsBatch codec.dumps codec.sha256 (obj batch_fields) windows_path accepted_ok

save-save_example :
    save_sync_batch codec false 7 (obj batch_fields) "t1" saved_table
    ≡ (ok (zeros 64), record saved_table { next_id = suc saved_table.next_id })
save-save_example =
    save-save codec false 7 (obj batch_fields) "t0" "t1" no_rows saved_table (zeros 64) saved_ok

load-save_example :
    (row : Row) × (gs : Fields) × (find_row 7 (zeros 64) saved_table.rows ≡ some row)
    × (load_sync_batch codec 7 (zeros 64) saved_table
        ≡ ok (some (record { metadata = metadata_of row; payload = gs })))
    × ((key : String) → get gs key ≡ Option.map codec-IsCodec.sorted (get batch_fields key))
load-save_example =
    load-save codec codec-IsCodec false 7 batch_fields "t0" no_rows saved_table (zeros 64) saved_ok

abbrev first_row : Row
first_row = record {
  id = 1;
  project_db_id = 7;
  batch_id = zeros 64;
  payload_json = windows_path;
  created_at = "t0";
}

first_found : find_row 7 (zeros 64) saved_table.rows ≡ some first_row
unfolding opened
first_found = refl

save_keeps_example :
    find_row 7 (zeros 64) (save_sync_batch codec true 8 (obj batch_fields) "t1" saved_table).1.rows
    ≡ some first_row
save_keeps_example =
    save_keeps codec true 8 7 (obj batch_fields) "t1" saved_table (zeros 64) first_row first_found

saved_table-IsTable : IsTable saved_table
saved_table-IsTable =
    save-IsTable codec false 7 (obj batch_fields) "t0" no_rows (record { rising = tt; ahead = tt })

list-list_example :
    list_sync_batches 7 1 5 saved_table
    ≡ ok (map metadata_of (take 5 (drop 1 (rows_after 7 0 saved_table.rows))))
unfolding opened
list-list_example =
    list-list 7 0 1 5 saved_table (map metadata_of saved_table.rows) saved_table-IsTable
      (omega arith) (omega arith) page_ok
