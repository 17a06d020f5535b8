-- ===== src/Relay/Paths/Safe.antt =====
-- The parts of the paths that `_relative_path` returns.
use cga.Prelude.{
  ℕ, ◌≡◌, ◌≢◌, refl, ap, ◌∙◌, true, false, ◌||◌, List, [], ◌∷◌, ◌++◌, arith, ◌==◌, ltb, any, All,
}
use cga.Text.{Text, has_char, replace_char, split, join, join-split}
use cga.Http.{ok}
use cga.Json.{Json, str}
use cga.Relay.Paths.{ends_badly, is_bad_part, parts_of, relative_text, relative_path}

-- A file name: not empty, and with no dot or blank at its end, so neither `.` nor `..`.
pub record IsPlainName (p : Text) : Type 0 where
  pub nonempty : p ≢ []
  pub no_dot : (s : Text) → p ≢ s ++ b'.' ∷ []
  pub no_blank : (s : Text) → p ≢ s ++ b' ' ∷ []

-- A path of plain names, joined by `/`, with no drive, no other separator and no control character.
pub record IsSafePath (p : Text) : Type 0 where
  pub names : All IsPlainName (split b'/' p)
  pub no_colon : has_char b':' p ≡ false
  pub no_backslash : has_char 92 p ≡ false
  pub no_control : any (λ x. ltb x 32) p ≡ false

ends_badly-append : (s : Text) (c : ℕ) → ends_badly (s ++ c ∷ []) ≡ (c == b' ' || c == b'.')
unfolding ends_badly
ends_badly-append [] c = refl
ends_badly-append (a ∷ []) c = refl
ends_badly-append (a ∷ b ∷ s) c = ends_badly-append (b ∷ s) c

fair_end : (p : Text) → is_bad_part p ≡ false → ends_badly p ≡ false
unfolding is_bad_part
fair_end [] h = refl
fair_end (c ∷ []) h = ground arith
fair_end (c ∷ d ∷ []) h = ground arith
fair_end (c ∷ d ∷ e ∷ s) h = h

IsPlainName-part : (p : Text) → is_bad_part p ≡ false → IsPlainName p
IsPlainName-part p h = record {
  nonempty = λ e. nonempty (rw e at h);
  no_dot = λ s e. ends s b'.' refl e;
  no_blank = λ s e. ends s b' ' refl e;
}
  where
    nonempty : is_bad_part [] ≡ false → ⊥
    nonempty q = unfold is_bad_part in cc q

    ends : (s : Text) (c : ℕ) → (c == b' ' || c == b'.') ≡ true → p ≢ s ++ c ∷ []
    ends s c bad e = cc (fair_end p h, ends_badly-append s c, ap ends_badly e, bad)

plain_parts : (ps : List Text) → any is_bad_part ps ≡ false → All IsPlainName ps
unfolding any
plain_parts [] h = tt
plain_parts (p ∷ ps) h = (IsPlainName-part p (ground arith), plain_parts ps (ground arith))

-- Replacing the backslashes keeps what the tests look for.
no_backslash-replace : (s : Text) → has_char 92 (replace_char 92 b'/' s) ≡ false
unfolding has_char replace_char
no_backslash-replace [] = refl
no_backslash-replace (c ∷ s) = ground (arith, no_backslash-replace s)

colon-replace : (s : Text) → has_char b':' (replace_char 92 b'/' s) ≡ has_char b':' s
unfolding has_char replace_char
colon-replace [] = refl
colon-replace (c ∷ s) = ground (arith, colon-replace s)

control-replace : (s : Text) → any (λ x. ltb x 32) (replace_char 92 b'/' s) ≡ any (λ x. ltb x 32) s
unfolding any replace_char
control-replace [] = refl
control-replace (c ∷ s) = ground (arith, control-replace s)

replace_fixed : (s : Text) → has_char 92 s ≡ false → replace_char 92 b'/' s ≡ s
unfolding has_char replace_char
replace_fixed [] h = refl
replace_fixed (c ∷ s) h = ground (arith, replace_fixed s)

-- What an accepted text has passed.
record IsAccepted (v p : Text) : Type 0 where
  result : p ≡ replace_char 92 b'/' v
  nonempty : v ≢ []
  colon : has_char b':' v ≡ false
  control : any (λ x. ltb x 32) v ≡ false
  parts : any is_bad_part (parts_of v) ≡ false

accepted : (v p : Text) → relative_text v ≡ ok p → IsAccepted v p
unfolding relative_text
accepted [] p h = cc
accepted (c ∷ s) p h =
    let back = join-split b'/' (replace_char 92 b'/' (c ∷ s)) in
    record {
      result = ground (arith, back);
      nonempty = λ e. cc;
      colon = ground arith;
      control = ground arith;
      parts = ground arith;
    }

-- An accepted path is safe: a sequence of plain file names (none empty, none `.` or `..`, none with
-- a dot or a blank at its end) with no colon, no backslash and no control character.
pub relative_path-IsSafePath : (v : Json) (p : Text) → relative_path v ≡ ok p → IsSafePath p
unfolding relative_path
relative_path-IsSafePath (str v) p h =
    let a = accepted v p h in
    record {
      names = rw a.result (plain_parts (parts_of v) a.parts);
      no_colon = rw a.result (colon-replace v ∙ a.colon);
      no_backslash = rw a.result (no_backslash-replace v);
      no_control = rw a.result (control-replace v ∙ a.control);
    }
relative_path-IsSafePath _ p h = cc

accepts :
    (p : Text)
    → p ≢ []
    → has_char b':' p ≡ false
    → any (λ x. ltb x 32) p ≡ false
    → has_char 92 p ≡ false
    → any is_bad_part (split b'/' p) ≡ false
    → relative_text p ≡ ok p
unfolding relative_text
accepts [] n colon control back bad = absurd (n refl)
accepts (c ∷ s) n colon control back bad =
    let same = replace_fixed (c ∷ s) back in
    ground (
      arith,
      same,
      join-split b'/' (c ∷ s),
      ap (split b'/') same,
      ap (join b'/') (ap (split b'/') same),
    )

replace-ne_nil : (v : Text) → v ≢ [] → replace_char 92 b'/' v ≢ []
unfolding replace_char
replace-ne_nil [] n e = n refl
replace-ne_nil (c ∷ s) n e = cc

-- An accepted path is accepted again, and is its own normal form.
pub relative_path_idem :
    (v : Json) (p : Text) → relative_path v ≡ ok p → relative_path (str p) ≡ ok p
unfolding relative_path
relative_path_idem (str v) p h =
    let a = accepted v p h in
    rw a.result (
      accepts (replace_char 92 b'/' v) (replace-ne_nil v a.nonempty) (colon-replace v ∙ a.colon)
        (control-replace v ∙ a.control) (no_backslash-replace v) a.parts)
relative_path_idem _ p h = cc
