-- ===== src/Tests/Relay/SortedKeys.antt =====
-- A codec that sorts keys: its texts stand for the objects of no snapshot and one tombstone.
use mathlib.Core.Option
use cga.Prelude.{
  ℕ, zero, suc, ◌≡◌, refl, sym, ap, ◌∙◌, inl, inr, Bool, Bool-cases, true, false, ◌&&◌, Option,
  none, some, [], ◌∷◌, arith, all, map, if◌then◌else◌, String, str_eq, eq_iff,
}
use cga.Text.{Text, codes, text_leb, text_leb-total}
use cga.Json.{
  Json, null, float, negative, bool, int, str, arr, obj, Items, nil, cons, items_of, Fields, end,
  field, get,
}
use cga.Relay.Storage.{Codec, is_batch_id}
use cga.Relay.Storage.Saved.{IsCodec}

-- A field before the first one whose key is not before its own.
unfoldable pub place_field : String → Json → Fields → Fields
place_field k v end = field k v end
place_field k v (field j w fs) =
    let rest = place_field k v fs in
    if text_leb (codes k) (codes j) then field k v (field j w fs) else field j w rest

unfoldable mutual
  unfolding place_field

  pub sorted : Json → Json
  sorted (obj fs) = obj (sorted_fields fs)
  sorted (arr vs) = arr (sorted_items vs)
  sorted null = null
  sorted (float s) = float s
  sorted (negative n) = negative n
  sorted (bool b) = bool b
  sorted (int n) = int n
  sorted (str t) = str t

  pub sorted_fields : Fields → Fields
  sorted_fields end = end
  sorted_fields (field k v fs) = place_field k (sorted v) (sorted_fields fs)

  pub sorted_items : Items → Items
  sorted_items nil = nil
  sorted_items (cons v vs) = cons (sorted v) (sorted_items vs)

text_leb_refl : (t : Text) → text_leb t t ≡ true
text_leb_refl t = elim (Bool-cases (text_leb t t)) [ inl e ↦ e | inr e ↦ text_leb-total t t e ]

other_key :
    (k j key : String)
    → text_leb (codes k) (codes j) ≡ false
    → str_eq j key ≡ true
    → str_eq k key ≡ false
other_key k j key h e = elim (Bool-cases (str_eq k key)) [
  | inr d ↦ d
  | inl d ↦
      let same : k ≡ j = ground (arith, eq_iff k key, eq_iff j key) in
      absurd (
        clash (text_leb (codes k) (codes j))
          (ap (λ i. text_leb (codes k) (codes i)) (sym same) ∙ text_leb_refl (codes k)) h)
]
  where
    clash : (b : Bool) → b ≡ true → b ≡ false → ⊥
    clash b p q = ground arith

get-place_field :
    (k : String) (v : Json) (fs : Fields) (key : String)
    → get (place_field k v fs) key ≡ (if str_eq k key then some v else get fs key)
unfolding get place_field
get-place_field k v end key = refl
get-place_field k v (field j w fs) key = elim (Bool-cases (text_leb (codes k) (codes j))) [
  | inl e ↦ rw e refl
  | inr e ↦ elim (Bool-cases (str_eq j key)) [
    | inl d ↦ rw (e, d, other_key k j key e d) refl
    | inr d ↦ rw (e, d) (get-place_field k v fs key)
  ]
]

get-sorted_fields :
    (fs : Fields) (key : String) → get (sorted_fields fs) key ≡ Option.map sorted (get fs key)
unfolding get sorted_fields
get-sorted_fields end key = refl
get-sorted_fields (field k v fs) key = elim (Bool-cases (str_eq k key)) [
  | inl e ↦ get-place_field k (sorted v) (sorted_fields fs) key ∙ rw e refl
  | inr e ↦ get-place_field k (sorted v) (sorted_fields fs) key ∙ rw e (get-sorted_fields fs key)
]

items_of-sorted_items : (vs : Items) → items_of (sorted_items vs) ≡ map sorted (items_of vs)
unfolding items_of sorted_items
items_of-sorted_items nil = refl
items_of-sorted_items (cons v vs) = ap (λ ws. sorted v ∷ ws) (items_of-sorted_items vs)

abbrev pub zeros : ℕ → Text
zeros zero = []
zeros (suc n) = b'0' ∷ zeros n

-- The text of an object of no snapshot and one tombstone is that tombstone.
unfoldable pub dump_one : Json → Option Text
dump_one (obj (field key (arr nil) (field key' (arr (cons (str path) nil)) end))) =
    if str_eq key "snapshots" && str_eq key' "tombstones" then some path else none
dump_one _ = none

abbrev load_one : Text → Option Json
load_one path =
    some (obj (field "snapshots" (arr nil) (field "tombstones" (arr (cons (str path) nil)) end)))

load_one-dump_one : (v : Json) (t : Text) → dump_one v ≡ some t → load_one t ≡ some v
unfolding dump_one
load_one-dump_one (obj (field key (arr nil) (field key' (arr (cons (str path) nil)) end))) t h =
    ground (arith, eq_iff key "snapshots", eq_iff key' "tombstones")
load_one-dump_one _ t h = cc

abbrev pub codec : Codec
codec = record { dumps = λ v. dump_one (sorted v); loads = load_one; sha256 = λ t. zeros 64 }

pub codec-IsCodec : IsCodec codec
unfolding is_batch_id all sorted
codec-IsCodec = record {
  sorted = sorted;
  sorted-obj = λ fs. (sorted_fields fs, refl, get-sorted_fields fs);
  sorted-arr = λ vs. (sorted_items vs, refl, items_of-sorted_items vs);
  sorted-str = λ t. refl;
  loads-dumps = λ v t. load_one-dump_one (sorted v) t;
  is_hex = λ t. refl;
}
