-- ===== src/Text.antt =====
-- Texts as lists of code points, with the string operations that the program uses on them.
mod Split
mod Order
unfoldable pub use Split.*
unfoldable pub use Order.*
use Prim.Native.Char.{code}
use cga.Prelude.{
  sym, ◌∙◌, inl, inr, Bool-cases, any, sort_by, any-sort_by, ℕ, zero, suc, ◌+◌, ◌/◌, ◌%◌, Option,
  none, some, String, ◌≡◌, refl, ap, ◌↔◌, Bool, true, false, ◌&&◌, ◌||◌, not, List, [], ◌∷◌, ◌++◌,
  arith, ◌==◌, leb, ltb, if◌then◌else◌, ==-refl, ==-eq,
}

abbrev pub Text : Type 0
Text = List ℕ

-- The code points of a text literal.
abbrev pub codes : String → Text
codes String.[] = []
codes (String.◌∷◌ c s) = code c ∷ codes s

-- `a == b`
unfoldable pub text_eq : Text → Text → Bool
text_eq [] [] = true
text_eq (a ∷ s) (b ∷ t) = (a == b) && text_eq s t
text_eq _ _ = false

pub text_eq_refl : (s : Text) → text_eq s s ≡ true
unfolding text_eq
text_eq_refl [] = refl
text_eq_refl (a ∷ s) = rw ==-refl (text_eq_refl s)

pub text_eq_sound : (s t : Text) → text_eq s t ≡ true → s ≡ t
unfolding text_eq
text_eq_sound [] [] h = refl
text_eq_sound (a ∷ s) (b ∷ t) h = ground (arith, text_eq_sound s t)
text_eq_sound _ _ h = cc

pub text_eq_comm : (a b : Text) → text_eq a b ≡ text_eq b a
unfolding text_eq
text_eq_comm [] [] = refl
text_eq_comm [] (b ∷ t) = refl
text_eq_comm (a ∷ s) [] = refl
text_eq_comm (a ∷ s) (b ∷ t) = ground (arith, text_eq_comm s t)

pub text_eq_iff : (s t : Text) → (text_eq s t ≡ true) ↔ (s ≡ t)
text_eq_iff s t = (text_eq_sound s t, λ e. rw e (text_eq_refl t))

-- `t in ts`
unfoldable pub has_text : List Text → Text → Bool
has_text [] t = false
has_text (s ∷ ts) t = text_eq s t || has_text ts t

pub has_text-snoc :
    (p : List Text) (x t : Text) → has_text (p ++ x ∷ []) t ≡ (has_text p t || text_eq x t)
unfolding has_text
has_text-snoc [] x t = ground arith
has_text-snoc (a ∷ p) x t = ground (arith, has_text-snoc p x t)

-- The number of bytes of the UTF-8 encoding of a code point, and of a text.
abbrev pub utf8_width : ℕ → ℕ
utf8_width c = if ltb c 0x80 then 1 else if ltb c 0x800 then 2 else if ltb c 0x10000 then 3 else 4

abbrev add_width : ℕ → Option ℕ → Option ℕ
add_width n none = none
add_width n (some m) = some (n + m)

-- `len(text.encode("utf-8"))`; a surrogate cannot be encoded.
unfoldable pub utf8_size : Text → Option ℕ
utf8_size [] = some 0
utf8_size (c ∷ s) =
    let rest = utf8_size s in
    if leb 0xd800 c && leb c 0xdfff then none else add_width (utf8_width c) rest

decimal_digits : ℕ → ℕ → Text → Text
decimal_digits zero n acc = acc
decimal_digits (suc f) n acc =
    let more = decimal_digits f (n / 10) ((b'0' + n % 10) ∷ acc) in
    if ltb n 10 then (b'0' + n) ∷ acc else more

-- `str(n)` of a number: as many rounds as the number are more than its digits.
unfoldable pub decimal : ℕ → Text
unfolding decimal_digits
decimal n = decimal_digits (suc n) n []

-- `text.lower()` on an ASCII letter
abbrev pub lower_char : ℕ → ℕ
lower_char c = if leb b'A' c && leb c b'Z' then c + 32 else c

-- The texts of a list without repetitions.
unfoldable pub distinct_texts : List Text → List Text
unfolding has_text
distinct_texts [] = []
distinct_texts (t ∷ ts) = let rest = distinct_texts ts in if has_text rest t then rest else t ∷ rest

pub has_text-distinct_texts :
    (ts : List Text) (t : Text) → has_text (distinct_texts ts) t ≡ has_text ts t
unfolding has_text distinct_texts
has_text-distinct_texts [] t = refl
has_text-distinct_texts (s ∷ ts) t = elim (Bool-cases (has_text (distinct_texts ts) s)) [
  | inl e ↦ elim (Bool-cases (text_eq s t)) [
    | inl q ↦ ground (
      arith,
      ap (has_text (distinct_texts ts)) (text_eq_sound s t q),
      has_text-distinct_texts ts t,
    )
    | inr q ↦ ground (arith, has_text-distinct_texts ts t)
  ]
  | inr e ↦ ground (arith, has_text-distinct_texts ts t)
]

pub has_text-any : (ts : List Text) (t : Text) → has_text ts t ≡ any (λ s. text_eq s t) ts
unfolding has_text any
has_text-any [] t = refl
has_text-any (s ∷ ts) t = ap (λ b. text_eq s t || b) (has_text-any ts t)

-- `sorted(set(texts))`
unfoldable pub sorted_texts : List Text → List Text
sorted_texts ts = sort_by text_leb (distinct_texts ts)

pub has_text-sorted_texts :
    (ts : List Text) (t : Text) → has_text (sorted_texts ts) t ≡ has_text ts t
unfolding sorted_texts
has_text-sorted_texts ts t =
    has_text-any (sort_by text_leb (distinct_texts ts)) t
    ∙ any-sort_by text_leb (λ s. text_eq s t) (distinct_texts ts)
    ∙ sym (has_text-any (distinct_texts ts) t)
    ∙ has_text-distinct_texts ts t
