-- ===== src/Relay/Payload.antt =====
-- `_canonical_payload`: the checks that a sync batch passes before it is stored. `dumps` is the
-- canonical `json.dumps`, which may refuse, and `sha256` the hex digest of a text's UTF-8.
pub mod Items
pub mod Batch
use cga.Prelude.{
  ℕ, ◌+◌, ◌*◌, String, Bool, true, false, ◌&&◌, ◌||◌, not, Option, none, some, List, [], ◌∷◌, ◌==◌,
  leb, ltb, length, all, map, if◌then◌else◌,
}
use cga.Text.{Text, text_eq, has_text, utf8_size, lower_char}
use cga.Http.{Result, ok, http, error, ◌>>=◌, ◌>>◌, require}
use cga.Json.{Json, null, int, str, arr, obj, Fields, get, items_of}
use cga.Relay.Paths.{relative_path}

abbrev pub max_sync_items : ℕ
max_sync_items = 500

abbrev pub max_sync_bytes : ℕ
max_sync_bytes = 8 * 1024 * 1024

abbrev pub or_null : Option Json → Json
or_null none = null
or_null (some v) = v

abbrev is_hex_char : ℕ → Bool
is_hex_char c =
    (leb b'0' c && leb c b'9') || (leb b'a' c && leb c b'f') || (leb b'A' c && leb c b'F')

-- `re.fullmatch(r"[a-fA-F0-9]{64}", digest)`
unfoldable pub is_hex_digest : Text → Bool
is_hex_digest t = length t == 64 && all is_hex_char t

-- `payload.get(key, [])`, which must be an array.
abbrev pub array_of : Option Json → Result (List Json)
array_of none = ok []
array_of (some (arr vs)) = ok (items_of vs)
array_of (some _) = http 400

abbrev pub content_of : Json → Result Text
content_of (str t) = ok t
content_of _ = http 400

abbrev pub size_of : Option ℕ → Result ℕ
size_of none = error
size_of (some n) = ok n

abbrev pub is_count : Json → ℕ → Bool
is_count (int n) size = n == size
is_count _ size = false

abbrev pub is_digest_of : Json → Text → Bool
is_digest_of (str t) digest = is_hex_digest t && text_eq digest (map lower_char t)
is_digest_of _ digest = false

module _ (sha256 : Text → Text) where
  -- What a snapshot says of its content: its size and its digest.
  unfoldable pub check_content : Fields → Result (Unit {0})
  check_content fs = do
    content ← content_of (or_null (get fs "content"))
    size ← size_of (utf8_size content)
    require (is_count (or_null (get fs "bytes")) size) 400
    require (is_digest_of (or_null (get fs "sha256")) (sha256 content)) 400

  -- The body of the loop over the snapshots: the paths seen, with this one.
  unfoldable pub check_fields : Fields → List Text → Result (List Text)
  unfolding check_content
  check_fields fs seen = do
    path ← relative_path (or_null (get fs "path"))
    require (not (has_text seen path)) 409
    check_content fs
    ok (path ∷ seen)

  unfoldable pub check_snapshot : Json → List Text → Result (List Text)
  unfolding check_fields
  check_snapshot (obj fs) seen = check_fields fs seen
  check_snapshot _ seen = http 400

  unfoldable pub check_snapshots : List Json → List Text → Result (List Text)
  unfolding check_snapshot
  check_snapshots [] seen = ok seen
  check_snapshots (v ∷ vs) seen = check_snapshot v seen >>= check_snapshots vs

-- The body of the loop over the tombstones.
unfoldable pub check_tombstone : Json → List Text → Result (List Text)
check_tombstone v seen = do
  path ← relative_path v
  require (not (has_text seen path)) 409
  ok (path ∷ seen)

unfoldable pub check_tombstones : List Json → List Text → Result (List Text)
unfolding check_tombstone
check_tombstones [] seen = ok seen
check_tombstones (v ∷ vs) seen = check_tombstone v seen >>= check_tombstones vs

abbrev pub or_400 : {A : Type 0} → Option A → Result A
or_400 none = http 400
or_400 (some a) = ok a

abbrev pub fields_of : Json → Result Fields
fields_of (obj fs) = ok fs
fields_of _ = http 400

-- The canonical JSON of a batch, or the status that refuses it.
unfoldable pub canonical_payload : (Json → Option Text) → (Text → Text) → Json → Result Text
unfolding check_snapshots check_tombstones
canonical_payload dumps sha256 payload = do
  fs ← fields_of payload
  snapshots ← array_of (get fs "snapshots")
  tombstones ← array_of (get fs "tombstones")
  require (leb (length snapshots + length tombstones) max_sync_items) 413
  canonical ← or_400 (dumps payload)
  size ← or_400 (utf8_size canonical)
  require (leb size max_sync_bytes) 413
  seen ← check_snapshots sha256 snapshots []
  paths ← check_tombstones tombstones seen
  ok canonical
