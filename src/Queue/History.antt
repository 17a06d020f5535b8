-- ===== src/Queue/History.antt =====
-- The attempt history in a status hash: `_history` and `_finish_history`.
use cga.Prelude.{
  ℕ, String, Bool, false, Option, none, some, List, [], ◌∷◌, ◌++◌, ◌==◌, str_eq, if◌then◌else◌,
}
use cga.Queue.Status.{
  Hash, HistoryText, readable, unreadable, Item, blank_item, Phase, done, failed, Reported,
  reported,
}

abbrev pub unreadable_item : String → Item
unreadable_item text = record blank_item {
  error = some "Unreadable prior attempt history";
  raw = some text;
}

abbrev read_history : Option HistoryText → List Item
read_history none = []
read_history (some (readable items)) = items
read_history (some (unreadable text)) = unreadable_item text ∷ []

-- `_history`
unfoldable pub history : Hash → List Item
history h = read_history h.attempt_history

abbrev is_attempt : Option ℕ → ℕ → Bool
is_attempt none n = false
is_attempt (some m) n = m == n

-- `history[-1].get("attempt") == attempt`, and false of an empty history.
unfoldable pub ends_at : List Item → ℕ → Bool
ends_at [] n = false
ends_at (x ∷ []) n = is_attempt x.attempt n
ends_at (x ∷ y ∷ rest) n = ends_at (y ∷ rest) n

-- `f` on the last item.
unfoldable pub amend_last : (Item → Item) → List Item → List Item
amend_last f [] = []
amend_last f (x ∷ []) = f x ∷ []
amend_last f (x ∷ y ∷ rest) = x ∷ amend_last f (y ∷ rest)

abbrev set_default : Option String → String → Option String
set_default none v = some v
set_default (some old) v = some old

abbrev note_reported : Option Reported → Item → Item
note_reported (some (reported text)) x = record x {
  previous_reported_errors = set_default x.previous_reported_errors text;
}
note_reported _ x = x

-- An error that differs from the one before keeps that one in a list; an empty text counts as none.
abbrev keep_previous : Option String → String → List String → List String
keep_previous none error olds = olds
keep_previous (some String.[]) error olds = olds
keep_previous (some (String.◌∷◌ c s)) error olds =
    if str_eq (String.◌∷◌ c s) error then olds else olds ++ String.◌∷◌ c s ∷ []

abbrev note_error : Option String → Item → Item
note_error none x = x
note_error (some error) x = record x {
  error = some error;
  previous_errors = keep_previous x.error error x.previous_errors;
}

abbrev outcome_phase : Option String → Phase
outcome_phase none = done
outcome_phase (some _) = failed

-- What `_finish_history` writes into the last item.
unfoldable pub close_item : Option Reported → Option String → String → Item → Item
close_item errors error stamp x = note_error error (
    note_reported errors
      (record x { finished_at = some stamp; status = some (outcome_phase error) }))

-- `_finish_history`
unfoldable pub finish_history : Hash → ℕ → Option String → String → List Item
unfolding history ends_at amend_last close_item
finish_history h attempt error stamp = amend_last (close_item h.errors error stamp) (
    if ends_at (history h) attempt
    then history h
    else history h ++ record blank_item { attempt = some attempt } ∷ [])
