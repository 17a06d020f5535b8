-- ===== src/Json.antt =====
-- JSON values. Keys are compared whole; texts are walked.
use cga.Prelude.{
  suc, true, false, not, ◌||◌, ℕ, String, Bool, Option, none, some, str_eq, if◌then◌else◌, List, [],
  ◌∷◌,
}
use cga.Text.{Text}

mutual
  pub data Json : Type 0 where
    null : Json
    -- A float by its text, and a negative integer by its magnitude.
    float : String → Json
    negative : ℕ → Json
    bool : Bool → Json
    int : ℕ → Json
    str : Text → Json
    arr : Items → Json
    obj : Fields → Json

  pub data Items : Type 0 where
    nil : Items
    cons : Json → Items → Items

  pub data Fields : Type 0 where
    end : Fields
    field : String → Json → Fields → Fields

-- `d.get(key)`
unfoldable pub get : Fields → String → Option Json
get end k = none
get (field j v fs) k = if str_eq j k then some v else get fs k

unfoldable pub items_of : Items → List Json
items_of nil = []
items_of (cons v vs) = v ∷ items_of vs

-- `bool(value)`
unfoldable pub truthy : Json → Bool
truthy null = false
truthy (float s) = not (str_eq s "0.0" || str_eq s "-0.0")
truthy (negative n) = true
truthy (bool b) = b
truthy (int ℕ.zero) = false
truthy (int (suc n)) = true
truthy (str []) = false
truthy (str (c ∷ s)) = true
truthy (arr nil) = false
truthy (arr (cons v vs)) = true
truthy (obj end) = false
truthy (obj (field k v fs)) = true

-- `a or b`
unfoldable pub or_else : Option Json → Option Json → Option Json
unfolding truthy
or_else none b = b
or_else (some v) b = if truthy v then some v else b

-- `str(value)`; `shown` gives it for a value that is no text.
abbrev pub to_text : (Json → Text) → Json → Text
to_text shown (str s) = s
to_text shown v = shown v

abbrev text_of : (Json → Text) → Option Json → Text
text_of shown none = []
text_of shown (some v) = to_text shown v

-- `str(value or "")`
unfoldable pub given_text : (Json → Text) → Option Json → Text
unfolding or_else
given_text shown v = text_of shown (or_else v none)

-- `d[key] = value`
unfoldable pub set_field : String → Json → Fields → Fields
set_field k v end = field k v end
set_field k v (field j w fs) =
    let rest = set_field k v fs in if str_eq j k then field k v fs else field j w rest
