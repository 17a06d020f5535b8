-- ===== src/Relay/Payload/Items.antt =====
-- `_canonical_payload`: the loops over the snapshots and the tombstones, and the paths that they collect.
use cga.Prelude.{
  ℕ, ◌≡◌, refl, ap, ◌∙◌, subst, true, false, not, Option, none, some, List, [], ◌∷◌, ◌++◌, ==-eq,
  arith, map, All,
}
use cga.Text.{Text, text_eq_sound, has_text, utf8_size, lower_char}
use cga.Http.{ok, require, >>=-eq-ok, require-eq-ok}
use cga.Json.{Json, int, str, obj, Fields, get}
use cga.Relay.Paths.{relative_path}
use cga.Relay.Paths.Safe.{IsSafePath}
use cga.Relay.Payload.{
  content_of, size_of, is_count, is_digest_of, check_content, check_fields, check_snapshot,
  check_snapshots, check_tombstone, check_tombstones, or_null, fields_of,
}

-- No text of the list is one that stands before it, or one of `seen`.
abbrev pub IsNew : List Text → List Text → Type 0
IsNew seen [] = Unit
IsNew seen (p ∷ ps) = (has_text seen p ≡ false) × IsNew (p ∷ seen) ps

-- The items and the texts belong together one by one.
abbrev pub Each : (Json → Text → Type 0) → List Json → List Text → Type 0
Each P [] [] = Unit
Each P (v ∷ vs) (p ∷ ps) = P v p × Each P vs ps
Each P _ _ = ⊥

-- A tombstone is the path itself, as it was sent.
abbrev pub IsTombstone : Json → Text → Type 0
IsTombstone v p = relative_path v ≡ ok p

-- A snapshot is an object with its path under "path", its text under "content", the number of bytes of that text under
-- "bytes", and its SHA-256 digest, in any case of the letters, under "sha256".
pub record IsSnapshot (sha256 : Text → Text) (v : Json) (p : Text) : Type 0 where
  pub fields : Fields
  pub is_object : v ≡ obj fields
  pub path : relative_path (or_null (get fields "path")) ≡ ok p
  pub content : Text
  pub has_content : or_null (get fields "content") ≡ str content
  pub size : ℕ
  pub sized : utf8_size content ≡ some size
  pub has_bytes : or_null (get fields "bytes") ≡ int size
  pub digest : Text
  pub has_sha256 : or_null (get fields "sha256") ≡ str digest
  pub is_digest : sha256 content ≡ map lower_char digest

content_of_str : (v : Json) (t : Text) → content_of v ≡ ok t → v ≡ str t
content_of_str (str s) t h = cc
content_of_str _ t h = cc

size_of-some : (o : Option ℕ) (n : ℕ) → size_of o ≡ ok n → o ≡ some n
size_of-some none n h = cc
size_of-some (some m) n h = cc

count_int : (v : Json) (n : ℕ) → is_count v n ≡ true → v ≡ int n
count_int (int m) n h = ap int (==-eq m n h)
count_int _ n h = cc

digest_str :
    (v : Json) (d : Text)
    → is_digest_of v d ≡ true
    → (t : Text) × (v ≡ str t) × (d ≡ map lower_char t)
digest_str (str t) d h = (t, refl, text_eq_sound d (map lower_char t) (ground (arith, h)))
digest_str _ d h = cc

pub fields_of_obj : (v : Json) {fs : Fields} → fields_of v ≡ ok fs → v ≡ obj fs
fields_of_obj (obj fs) h = cc
fields_of_obj _ h = cc

-- What one item adds to the paths that were seen.
record Adds (P : Json → Text → Type 0) (v : Json) (seen out : List Text) : Type 0 where
  path : Text
  named : P v path
  new : has_text seen path ≡ false
  same : out ≡ path ∷ seen

not_seen : (seen : List Text) (p : Text) → not (has_text seen p) ≡ true → has_text seen p ≡ false
not_seen seen p h = ground (arith, h)

IsTombstone-Adds :
    (v : Json) (seen out : List Text)
    → check_tombstone v seen ≡ ok out
    → Adds IsTombstone v seen out
unfolding check_tombstone
IsTombstone-Adds v seen out h =
    let (p, e, rest) = >>=-eq-ok (relative_path v) _ h in
    let (u, fine, last) = >>=-eq-ok (require (not (has_text seen p)) 409) _ rest in
    record {
      path = p;
      named = e;
      new = not_seen seen p (require-eq-ok _ 409 fine);
      same = ground (arith, last);
    }

module _ (sha256 : Text → Text) where
  fields_Adds :
      (fs : Fields) (seen out : List Text)
      → check_fields sha256 fs seen ≡ ok out
      → Adds (IsSnapshot sha256) (obj fs) seen out
  unfolding check_fields check_content
  fields_Adds fs seen out h =
      let (p, e, rest) = >>=-eq-ok (relative_path (or_null (get fs "path"))) _ h in
      let (u, fine, rest₂) = >>=-eq-ok (require (not (has_text seen p)) 409) _ rest in
      let (u₁, checked, last) = >>=-eq-ok (check_content sha256 fs) _ rest₂ in
      let (content, c, rest₃) = >>=-eq-ok (content_of (or_null (get fs "content"))) _ checked in
      let (size, z, rest₄) = >>=-eq-ok (size_of (utf8_size content)) _ rest₃ in
      let (u₂, counted, digested) =
        >>=-eq-ok (require (is_count (or_null (get fs "bytes")) size) 400) _ rest₄ in
      let (digest, d, same_digest) =
        digest_str (or_null (get fs "sha256")) (sha256 content) (require-eq-ok _ 400 digested) in
      record {
        path = p;
        named = record {
          fields = fs;
          is_object = refl;
          path = e;
          content = content;
          has_content = content_of_str (or_null (get fs "content")) content c;
          size = size;
          sized = size_of-some (utf8_size content) size z;
          has_bytes = count_int (or_null (get fs "bytes")) size (require-eq-ok _ 400 counted);
          digest = digest;
          has_sha256 = d;
          is_digest = same_digest;
        };
        new = not_seen seen p (require-eq-ok _ 409 fine);
        same = ground (arith, last);
      }

  IsSnapshot-Adds :
      (v : Json) (seen out : List Text)
      → check_snapshot sha256 v seen ≡ ok out
      → Adds (IsSnapshot sha256) v seen out
  unfolding check_snapshot
  IsSnapshot-Adds (obj fs) seen out h = fields_Adds fs seen out h
  IsSnapshot-Adds _ seen out h = cc

-- The paths that a loop has seen at its end.
abbrev pub push : List Text → List Text → List Text
push [] seen = seen
push (p ∷ ps) seen = push ps (p ∷ seen)

-- What a loop adds.
pub record Extends (P : Json → Text → Type 0) (vs : List Json) (seen out : List Text) : Type 0 where
  pub paths : List Text
  pub each : Each P vs paths
  pub new : IsNew seen paths
  pub same : out ≡ push paths seen

Extends-nil : {P : Json → Text → Type 0} {seen out : List Text} → out ≡ seen → Extends P [] seen out
Extends-nil e = record { paths = []; each = tt; new = tt; same = e }

Extends-cons :
    {P : Json → Text → Type 0} {v : Json} {vs : List Json} {seen next out : List Text}
    → Adds P v seen next
    → Extends P vs next out
    → Extends P (v ∷ vs) seen out
Extends-cons {P} {v} {vs} {seen} {next} {out} a b = record {
  paths = a.path ∷ b.paths;
  each = (a.named, b.each);
  new = (a.new, subst (λ s. IsNew s b.paths) a.same b.new);
  same = b.same ∙ ap (push b.paths) a.same;
}

pub snapshots_Extends :
    (sha256 : Text → Text) (vs : List Json) (seen out : List Text)
    → check_snapshots sha256 vs seen ≡ ok out
    → Extends (IsSnapshot sha256) vs seen out
unfolding check_snapshots
snapshots_Extends sha256 [] seen out h = Extends-nil (ground (arith, h))
snapshots_Extends sha256 (v ∷ vs) seen out h =
    let (next, e, rest) = >>=-eq-ok (check_snapshot sha256 v seen) (check_snapshots sha256 vs) h in
    Extends-cons (IsSnapshot-Adds sha256 v seen next e) (snapshots_Extends sha256 vs next out rest)

pub tombstones_Extends :
    (vs : List Json) (seen out : List Text)
    → check_tombstones vs seen ≡ ok out
    → Extends IsTombstone vs seen out
unfolding check_tombstones
tombstones_Extends [] seen out h = Extends-nil (ground (arith, h))
tombstones_Extends (v ∷ vs) seen out h =
    let (next, e, rest) = >>=-eq-ok (check_tombstone v seen) (check_tombstones vs) h in
    Extends-cons (IsTombstone-Adds v seen next e) (tombstones_Extends vs next out rest)

pub IsNew-append :
    (seen ps qs : List Text) → IsNew seen ps → IsNew (push ps seen) qs → IsNew seen (ps ++ qs)
IsNew-append seen [] qs a b = b
IsNew-append seen (p ∷ ps) qs (h, a) b = (h, IsNew-append (p ∷ seen) ps qs a b)

pub Each-IsSafePath :
    (P : Json → Text → Type 0) (vs : List Json) (ps : List Text)
    → ((v : Json) (p : Text) → P v p → IsSafePath p)
    → Each P vs ps
    → All IsSafePath ps
Each-IsSafePath P [] [] f e = tt
Each-IsSafePath P (v ∷ vs) (p ∷ ps) f (h, e) = (f v p h, Each-IsSafePath P vs ps f e)
Each-IsSafePath P [] (p ∷ ps) f e = absurd e
Each-IsSafePath P (v ∷ vs) [] f e = absurd e
