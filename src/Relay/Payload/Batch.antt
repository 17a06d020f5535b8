-- ===== src/Relay/Payload/Batch.antt =====
-- `_canonical_payload`: the batches that it lets through.
use cga.Prelude.{
  ℕ, ◌+◌, ◌≤◌, ◌≡◌, sym, ap, ◌∙◌, subst, true, Option, none, some, List, [], ◌++◌, arith, length,
  All, All-append, leb,
}
use cga.Text.{Text, utf8_size}
use cga.Http.{ok, require, >>=-eq-ok, require-eq-ok}
use cga.Json.{Json, obj, Fields, get}
use cga.Relay.Paths.Safe.{IsSafePath, relative_path-IsSafePath}
use cga.Relay.Payload.{
  check_snapshots, check_tombstones, canonical_payload, or_null, or_400, fields_of, array_of,
  max_sync_items, max_sync_bytes,
}
use cga.Relay.Payload.Items.{
  IsNew, Each, IsTombstone, IsSnapshot, fields_of_obj, snapshots_Extends, tombstones_Extends,
  IsNew-append, Each-IsSafePath,
}

-- An accepted batch: its canonical text, bounded in bytes, and its items, bounded in number, each with its own path;
-- the paths are safe, and none stands twice.
pub record IsBatch (dumps : Json → Option Text) (sha256 : Text → Text) (payload : Json)
    (canonical : Text) : Type 0 where
  pub fields : Fields
  pub is_object : payload ≡ obj fields
  pub dumped : dumps payload ≡ some canonical
  pub size : ℕ
  pub sized : utf8_size canonical ≡ some size
  pub small : size ≤ max_sync_bytes
  pub snapshots : List Json
  pub has_snapshots : array_of (get fields "snapshots") ≡ ok snapshots
  pub tombstones : List Json
  pub has_tombstones : array_of (get fields "tombstones") ≡ ok tombstones
  pub few : length snapshots + length tombstones ≤ max_sync_items
  pub written : List Text
  pub each_snapshot : Each (IsSnapshot sha256) snapshots written
  pub deleted : List Text
  pub each_tombstone : Each IsTombstone tombstones deleted
  pub safe : All IsSafePath (written ++ deleted)
  pub different : IsNew [] (written ++ deleted)

or_400-eq-ok : {A : Type 0} (o : Option A) {a : A} → or_400 o ≡ ok a → o ≡ some a
or_400-eq-ok none h = cc
or_400-eq-ok (some b) h = cc

-- A batch that the checks let through is an object whose canonical text takes at most 8 MiB, with at most 500 snapshots
-- and tombstones. Each snapshot is an object whose path, content, size in bytes and digest agree, and each tombstone is
-- a path; the paths of them all are accepted by `relative_path`, safe, and different from one another.
pub canonical_payload-IsBatch :
    (dumps : Json → Option Text) (sha256 : Text → Text) (payload : Json) (canonical : Text)
    → canonical_payload dumps sha256 payload ≡ ok canonical
    → IsBatch dumps sha256 payload canonical
unfolding canonical_payload
canonical_payload-IsBatch dumps sha256 payload canonical h =
    let (fs, e, h₁) = >>=-eq-ok (fields_of payload) _ h in
    let (snapshots, s, h₂) = >>=-eq-ok (array_of (get fs "snapshots")) _ h₁ in
    let (tombstones, t, h₃) = >>=-eq-ok (array_of (get fs "tombstones")) _ h₂ in
    let (u, few, h₄) =
      >>=-eq-ok (require (leb (length snapshots + length tombstones) max_sync_items) 413) _ h₃ in
    let (text, d, h₅) = >>=-eq-ok (or_400 (dumps payload)) _ h₄ in
    let (size, z, h₆) = >>=-eq-ok (or_400 (utf8_size text)) _ h₅ in
    let (v, small, h₇) = >>=-eq-ok (require (leb size max_sync_bytes) 413) _ h₆ in
    let (seen, a, h₈) = >>=-eq-ok (check_snapshots sha256 snapshots []) _ h₇ in
    let (paths, b, h₉) = >>=-eq-ok (check_tombstones tombstones seen) _ h₈ in
    let same : text ≡ canonical = ground arith in
    let first = snapshots_Extends sha256 snapshots [] seen a in
    let second = tombstones_Extends tombstones seen paths b in
    record {
      fields = fs;
      is_object = fields_of_obj payload e;
      dumped = or_400-eq-ok (dumps payload) d ∙ ap some same;
      size = size;
      sized = ap utf8_size (sym same) ∙ or_400-eq-ok (utf8_size text) z;
      small = leb_sound size max_sync_bytes (require-eq-ok _ 413 small);
      snapshots = snapshots;
      has_snapshots = s;
      tombstones = tombstones;
      has_tombstones = t;
      few =
          leb_sound (length snapshots + length tombstones) max_sync_items (require-eq-ok _ 413 few);
      written = first.paths;
      each_snapshot = first.each;
      deleted = second.paths;
      each_tombstone = second.each;
      safe =
          All-append IsSafePath first.paths second.paths
            (Each-IsSafePath (IsSnapshot sha256) snapshots first.paths
              (λ v p i. relative_path-IsSafePath (or_null (get i.fields "path")) p i.path)
              first.each)
            (Each-IsSafePath IsTombstone tombstones second.paths relative_path-IsSafePath
              second.each);
      different =
          IsNew-append [] first.paths second.paths first.new
            (subst (λ s. IsNew s second.paths) first.same second.new);
    }
  where
    leb_sound : (a b : ℕ) → leb a b ≡ true → a ≤ b
    leb_sound a b q = ground arith
