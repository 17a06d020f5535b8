-- ===== src/Schedules/Compact/Masked.antt =====
-- `_compact_response_value`: the fields whose keys name secrets or data URLs.
use cga.Prelude.{
  ℕ, zero, suc, ◌≡◌, refl, sym, subst, inl, inr, Bool, true, false, ◌&&◌, ◌||◌, not, ◌++◌, String,
  str_eq, arith, Bool-cases, length, ltb,
}
use cga.Text.{Text, codes, text_eq, text_eq_sound, contains, starts_with}
use cga.Json.{
  Json, null, float, negative, bool, int, str, arr, obj, Items, nil, cons, Fields, end, field,
  set_field,
}
use cga.Schedules.Compact.{
  item_count, unless_deep, short_text, omitted, stars, is_data_url, is_secret, compact_field,
  compact, compact_fields, compact_items,
}
use Prim.Native.String.{◌++◌ as str_append}

-- The stars, and the mark of an omission.
unfoldable pub is_stars : Json → Bool
is_stars (str s) = text_eq s (codes "***")
is_stars _ = false

unfoldable pub is_omitted : Json → Bool
is_omitted (str s) = text_eq s (codes "[omitted]")
is_omitted _ = false

-- What `str.lower` does to the two keys that the code makes itself.
pub record IsLower (lower : Text → Text) : Type 0 where
  pub length_key :
      (k : String)
      → is_data_url (lower (codes k)) ≡ true
      → lower (codes (str_append k "Length")) ≡ lower (codes k) ++ codes "length"
  pub count_key : lower (codes "truncatedCount") ≡ codes "truncatedcount"

-- A key that is neither a secret's nor a data URL's.
abbrev IsPlain : Text → Type 0
IsPlain t = (is_secret t ≡ false) × (is_data_url t ≡ false)

truncatedcount-IsPlain : IsPlain (codes "truncatedcount")
unfolding is_secret is_data_url text_eq contains starts_with
truncatedcount-IsPlain = (refl, refl)

-- What holds of the two keys of data URLs holds of every key that is one.
for_data_url :
    (P : Text → Type 0) (t : Text)
    → is_data_url t ≡ true
    → P (codes "dataurl")
    → P (codes "data_url")
    → P t
unfolding is_data_url
for_data_url P t h one two = elim (Bool-cases (text_eq t (codes "dataurl"))) [
  | inl e ↦ subst P (sym (text_eq_sound t (codes "dataurl") e)) one
  | inr e ↦
      let other : text_eq t (codes "data_url") ≡ true = ground (arith, h, e) in
      subst P (sym (text_eq_sound t (codes "data_url") other)) two
]

length-IsPlain : (t : Text) → is_data_url t ≡ true → IsPlain (t ++ codes "length")
unfolding is_secret is_data_url text_eq contains starts_with
length-IsPlain t h = for_data_url (λ u. IsPlain (u ++ codes "length")) t h (refl, refl) (refl, refl)

data_url_open : (t : Text) → is_data_url t ≡ true → is_secret t ≡ false
unfolding is_secret text_eq contains starts_with
data_url_open t h = for_data_url (λ u. is_secret u ≡ false) t h refl refl

both : (a b : Bool) → a ≡ true → b ≡ true → (a && b) ≡ true
both a b h k = ground arith

either : (b : Bool) → (((not b || true) && true) && true) ≡ true
either b = ground arith

first : (a b : Bool) → (a && b) ≡ true → a ≡ true
first a b h = ground arith

second : (a b : Bool) → (a && b) ≡ true → b ≡ true
second a b h = ground arith

module _ (lower : Text → Text) where
  unfoldable pub field_hides : String → Json → Bool
  unfolding is_stars is_omitted
  field_hides key v =
      (not (is_secret (lower (codes key))) || is_stars v)
      && (not (is_data_url (lower (codes key))) || is_omitted v)

  -- Every field with the key of a secret, at any depth, holds the stars, and every one with the key of a data URL the mark.
  unfoldable mutual
    pub hides : Json → Bool
    hides (obj fs) = fields_hide fs
    hides (arr vs) = items_hide vs
    hides _ = true

    pub fields_hide : Fields → Bool
    fields_hide end = true
    fields_hide (field key v fs) = (field_hides key v && hides v) && fields_hide fs

    pub items_hide : Items → Bool
    items_hide nil = true
    items_hide (cons v vs) = hides v && items_hide vs

  fields_hide-set_field :
      (key : String) (v : Json) (fs : Fields)
      → (field_hides key v && hides v) ≡ true
      → fields_hide fs ≡ true
      → fields_hide (set_field key v fs) ≡ true
  unfolding set_field fields_hide
  fields_hide-set_field key v end h k = both (field_hides key v && hides v) true h refl
  fields_hide-set_field key v (field j w fs) h k = elim (Bool-cases (str_eq j key)) [
    | inl e ↦ rw e (
        both (field_hides key v && hides v) (fields_hide fs) h
          (second (field_hides j w && hides w) (fields_hide fs) k))
    | inr e ↦ rw e (
        both (field_hides j w && hides w) (fields_hide (set_field key v fs))
          (first (field_hides j w && hides w) (fields_hide fs) k)
          (fields_hide-set_field key v fs h
            (second (field_hides j w && hides w) (fields_hide fs) k)))
  ]

  -- A field of a key that is neither of both.
  plain :
      (key : String) (v : Json)
      → IsPlain (lower (codes key))
      → hides v ≡ true
      → (field_hides key v && hides v) ≡ true
  unfolding field_hides
  plain key v (q, u) h = rw (q, u, h) refl

  mark :
      (key : String)
      → is_data_url (lower (codes key)) ≡ true
      → (field_hides key omitted && hides omitted) ≡ true
  unfolding field_hides hides text_eq
  mark key u = rw (u, data_url_open (lower (codes key)) u) refl

  starred :
      (key : String)
      → is_data_url (lower (codes key)) ≡ false
      → (field_hides key stars && hides stars) ≡ true
  unfolding field_hides hides text_eq
  starred key u = rw u (either (is_secret (lower (codes key))))

  hides-unless_deep : (depth : ℕ) (v : Json) → hides v ≡ true → hides (unless_deep depth v) ≡ true
  unfolding hides
  hides-unless_deep depth v h = elim (Bool-cases (ltb 6 depth)) [
    | inl e ↦ rw e refl
    | inr e ↦ rw e h
  ]

  hides-short_text : (s : Text) → hides (short_text s) ≡ true
  unfolding hides
  hides-short_text s = elim (Bool-cases (ltb 2000 (length s))) [
    | inl e ↦ rw e refl
    | inr e ↦ rw e refl
  ]

  module _ (shown : Json → ℕ) (lowers : IsLower lower) where
    fields_hide-compact_field :
        (key : String) (item short : Json) (done : Fields)
        → hides short ≡ true
        → fields_hide done ≡ true
        → fields_hide (compact_field lower shown key item short done) ≡ true
    unfolding compact_field hides
    fields_hide-compact_field key item short done h k =
        elim (Bool-cases (is_data_url (lower (codes key)))) [
          | inl e ↦ rw e (
              fields_hide-set_field (str_append key "Length") (int (shown item))
                (set_field key omitted done) (measured e)
                (fields_hide-set_field key omitted done (mark key e) k))
          | inr e ↦ elim (Bool-cases (is_secret (lower (codes key)))) [
            | inl q ↦ rw (e, q) (fields_hide-set_field key stars done (starred key e) k)
            | inr q ↦ rw (e, q) (fields_hide-set_field key short done (plain key short (q, e) h) k)
          ]
        ]
      where
        measured :
            is_data_url (lower (codes key)) ≡ true
            → (field_hides (str_append key "Length") (int (shown item)) && hides (int (shown item)))
              ≡ true
        measured e =
            plain (str_append key "Length") (int (shown item))
              (subst IsPlain (sym (lowers.length_key key e)) (length-IsPlain (lower (codes key)) e))
              refl

    mutual
      unfolding compact hides

      compact-hides : (depth : ℕ) (v : Json) → hides (compact lower shown depth v) ≡ true
      compact-hides depth (obj fs) =
          hides-unless_deep depth (obj (compact_fields lower shown depth fs end))
            (compact_fields_hide depth fs end refl)
      compact-hides depth (arr vs) =
          hides-unless_deep depth (arr (compact_items lower shown depth 25 vs))
            (compact_items_hide depth 25 vs)
      compact-hides depth (str s) = hides-unless_deep depth (short_text s) (hides-short_text s)
      compact-hides depth null = hides-unless_deep depth null refl
      compact-hides depth (float s) = hides-unless_deep depth (float s) refl
      compact-hides depth (negative n) = hides-unless_deep depth (negative n) refl
      compact-hides depth (bool b) = hides-unless_deep depth (bool b) refl
      compact-hides depth (int n) = hides-unless_deep depth (int n) refl

      compact_fields_hide :
          (depth : ℕ) (fs done : Fields)
          → fields_hide done ≡ true
          → fields_hide (compact_fields lower shown depth fs done) ≡ true
      compact_fields_hide depth end done h = h
      compact_fields_hide depth (field key item fs) done h =
          compact_fields_hide depth fs
            (compact_field lower shown key item (compact lower shown (suc depth) item) done)
            (fields_hide-compact_field key item (compact lower shown (suc depth) item) done
              (compact-hides (suc depth) item) h)

      compact_items_hide :
          (depth n : ℕ) (vs : Items) → items_hide (compact_items lower shown depth n vs) ≡ true
      compact_items_hide depth n nil = refl
      compact_items_hide depth zero (cons v vs) =
          both ((field_hides "truncatedCount" (int (suc (item_count vs))) && true) && true) true
            (both (field_hides "truncatedCount" (int (suc (item_count vs))) && true) true
              (plain "truncatedCount" (int (suc (item_count vs)))
                (subst IsPlain (sym lowers.count_key) truncatedcount-IsPlain) refl)
              refl)
            refl
      compact_items_hide depth (suc n) (cons v vs) =
          ground (arith, compact-hides (suc depth) v, compact_items_hide depth n vs)

    -- When `lower` lowers the letters of the keys that the code makes itself: in a compacted value, whatever its depth,
    -- each field whose lowered key has the word of a secret in it holds the stars and nothing else, and each one whose
    -- lowered key is that of a data URL holds the mark of an omission.
    pub hides-compact : (depth : ℕ) (v : Json) → hides (compact lower shown depth v) ≡ true
    hides-compact = compact-hides
