-- ===== src/Relay/Paths.antt =====
-- `_relative_path`: what the server accepts as the path of a snapshot or a tombstone.
pub mod Safe
use cga.Prelude.{ℕ, Bool, true, false, ◌||◌, not, List, [], ◌∷◌, ◌==◌, ltb, any, if◌then◌else◌}
use cga.Text.{Text, has_char, replace_char, split, join}
use cga.Http.{Result, ok, http}
use cga.Json.{Json, str}

-- `part.endswith((" ", "."))`
unfoldable pub ends_badly : Text → Bool
ends_badly [] = false
ends_badly (c ∷ []) = c == b' ' || c == b'.'
ends_badly (c ∷ d ∷ s) = ends_badly (d ∷ s)

-- `part in ("", ".", "..") or part.endswith((" ", "."))`
unfoldable pub is_bad_part : Text → Bool
unfolding ends_badly
is_bad_part [] = true
is_bad_part (c ∷ []) = c == b'.' || ends_badly (c ∷ [])
is_bad_part (c ∷ d ∷ []) = (if c == b'.' then d == b'.' else false) || ends_badly (c ∷ d ∷ [])
is_bad_part (c ∷ d ∷ e ∷ s) = ends_badly (c ∷ d ∷ e ∷ s)

abbrev pub parts_of : Text → List Text
parts_of value = split b'/' (replace_char 92 b'/' value)

-- The path of a text, or the 400 that refuses it.
unfoldable pub relative_text : Text → Result Text
unfolding is_bad_part
relative_text [] = http 400
relative_text (c ∷ s) =
    if has_char b':' (c ∷ s) || any (λ x. ltb x 32) (c ∷ s) || any is_bad_part (parts_of (c ∷ s))
    then http 400
    else ok (join b'/' (parts_of (c ∷ s)))

unfoldable pub relative_path : Json → Result Text
unfolding relative_text
relative_path (str value) = relative_text value
relative_path _ = http 400
