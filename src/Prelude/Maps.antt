-- ===== src/Prelude/Maps.antt =====
-- Total maps with text or number keys, and their update laws in `if` form.
use Prim.Native.Nat.{ℕ}
use Prim.Native.String.{String}
use mathlib.Core.Path.{◌≡◌}
use text.Mathlib.Text.{◌==◌ as str_eq}
use text.Mathlib.TextPositions.{eq_refl}
use cga.Prelude.Tests.{◌==◌, if◌then◌else◌, ==-refl}

module _ {ℓ} {A : Type ℓ} where
  abbrev pub put_text : (String → A) → String → A → String → A
  put_text f k v j = if str_eq j k then v else f j

  abbrev pub put_num : (ℕ → A) → ℕ → A → ℕ → A
  put_num f k v j = if j == k then v else f j

  pub put_text_self : (f : String → A) (k : String) (v : A) → put_text f k v k ≡ v
  put_text_self f k v = rw (eq_refl k)

  pub put_num_self : (f : ℕ → A) (k : ℕ) (v : A) → put_num f k v k ≡ v
  put_num_self f k v = rw (==-refl k)
