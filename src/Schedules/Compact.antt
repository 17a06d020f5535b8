-- ===== src/Schedules/Compact.antt =====
-- `schedules/service.py`: `_compact_response_value`, which shortens a response and hides its secrets.
pub mod Masked
use cga.Prelude.{
  ℕ, zero, suc, ◌+◌, Bool, true, false, ◌||◌, List, [], ◌∷◌, ◌++◌, String, str_eq, length, take,
  ltb, any, if◌then◌else◌,
}
use cga.Text.{Text, codes, text_eq, contains}
use cga.Json.{
  Json, null, float, negative, bool, int, str, arr, obj, Items, nil, cons, Fields, end, field,
  set_field,
}
use Prim.Native.String.{◌++◌ as str_append}

unfoldable pub item_count : Items → ℕ
item_count nil = 0
item_count (cons v vs) = suc (item_count vs)

abbrev pub unless_deep : ℕ → Json → Json
unless_deep depth v = if ltb 6 depth then str (codes "[truncated]") else v

abbrev pub short_text : Text → Json
short_text s = if ltb 2000 (length s) then str (take 2000 s ++ codes "... [truncated]") else str s

abbrev pub omitted : Json
omitted = str (codes "[omitted]")

abbrev pub stars : Json
stars = str (codes "***")

-- The keys of data URLs, and those of secrets.
unfoldable pub is_data_url : Text → Bool
is_data_url key = text_eq key (codes "dataurl") || text_eq key (codes "data_url")

unfoldable pub is_secret : Text → Bool
is_secret key =
    contains (codes "password") key
    || (contains (codes "token") key
        || (contains (codes "secret") key
            || (contains (codes "authorization") key || contains (codes "api_key") key)))

-- `lower` is `str.lower`, and `shown` the length of `str(item or "")`.
module _ (lower : Text → Text) (shown : Json → ℕ) where
  -- One field of `compacted`; `short` is the compacted item.
  unfoldable pub compact_field : String → Json → Json → Fields → Fields
  unfolding is_data_url is_secret set_field
  compact_field key item short done =
      if is_data_url (lower (codes key))
      then set_field (str_append key "Length") (int (shown item)) (set_field key omitted done)
      else if is_secret (lower (codes key))
      then set_field key stars done
      else set_field key short done

  unfoldable mutual
    unfolding compact_field item_count

    pub compact : ℕ → Json → Json
    compact depth (obj fs) = unless_deep depth (obj (compact_fields depth fs end))
    compact depth (arr vs) = unless_deep depth (arr (compact_items depth 25 vs))
    compact depth (str s) = unless_deep depth (short_text s)
    compact depth null = unless_deep depth null
    compact depth (float s) = unless_deep depth (float s)
    compact depth (negative n) = unless_deep depth (negative n)
    compact depth (bool b) = unless_deep depth (bool b)
    compact depth (int n) = unless_deep depth (int n)

    pub compact_fields : ℕ → Fields → Fields → Fields
    compact_fields depth end done = done
    compact_fields depth (field key item fs) done =
        compact_fields depth fs (compact_field key item (compact (suc depth) item) done)

    -- `value[:25]`, and how many more there are.
    pub compact_items : ℕ → ℕ → Items → Items
    compact_items depth n nil = nil
    compact_items depth zero (cons v vs) =
        cons (obj (field "truncatedCount" (int (suc (item_count vs))) end)) nil
    compact_items depth (suc n) (cons v vs) =
        cons (compact (suc depth) v) (compact_items depth n vs)
