-- ===== src/Schedules/Collect.antt =====
-- `schedules/service.py`: the results of the commands that a request queued, and the summary of results.
use cga.Prelude.{
  ℕ, Bool, false, Option, none, some, List, [], ◌∷◌, ◌++◌, ◌==◌, length, take, map, sort_by,
  if◌then◌else◌,
}
use cga.Text.{Text, codes, text_eq, text_leb}
use cga.Json.{
  Json, bool, int, str, arr, obj, Fields, end, field, get, items_of, truthy, or_else, given_text,
}
use cga.Schedules.Compact.{compact}
use cga.Schedules.Browser.{Python, items_json}
use cga.Schedules.Workflow.{
  Reply, unreachable, answered, Outcome, payload_of, compacted, is_not_false, failures,
}

-- `_queued_browseragent_items`: an ID and an action each.
abbrev pub queued_item : Python → Fields → List (Text × Text)
queued_item f item =
    (given_text f.shown (get item "id"), given_text f.shown (get item "action")) ∷ []

abbrev pub id_given : Option Json → Bool
id_given none = false
id_given (some v) = truthy v

unfoldable pub queued_of : Python → Json → List (Text × Text)
unfolding get given_text truthy
queued_of f (obj item) = if id_given (get item "id") then queued_item f item else []
queued_of f v = []

unfoldable pub queued_all : Python → List Json → List (Text × Text)
unfolding queued_of
queued_all f [] = []
queued_all f (v ∷ vs) = queued_of f v ++ queued_all f vs

abbrev pub queued_in : Python → Fields → Option Json → List (Text × Text)
queued_in f payload (some (arr vs)) = queued_all f (items_of vs)
queued_in f payload _ = queued_of f (obj payload)

unfoldable pub queued_items : Python → Fields → List (Text × Text)
unfolding queued_all items_of
queued_items f payload = queued_in f payload (get payload "items")

-- `{item["id"]: item for item in queued_items}`
unfoldable pub put_item : Text → Text → List (Text × Text) → List (Text × Text)
put_item id action [] = (id, action) ∷ []
put_item id action ((i, a) ∷ items) =
    let rest = put_item id action items in
    if text_eq i id then (i, action) ∷ items else (i, a) ∷ rest

unfoldable pub by_id : List (Text × Text) → List (Text × Text) → List (Text × Text)
unfolding put_item
by_id [] pending = pending
by_id ((id, action) ∷ items) pending = by_id items (put_item id action pending)

-- `_collect_browseragent_results`: one ID of a round, a round, and the rounds until the deadline.
pub record Collected : Type 0 where
  pub pending : List (Text × Text)
  pub results : List Outcome

abbrev pub dict_or : Option Json → Json
dict_or none = obj end
dict_or (some v) = v

abbrev pub collected : Python → Text → Text → Fields → Outcome
collected f id action payload = record {
  id = id;
  action = action;
  success = is_not_false (get payload "success");
  error = take 1000 (given_text f.shown (get payload "error"));
  result_data = compacted f (dict_or (or_else (get payload "data") none));
  attempts = 0;
}

-- A reply for an ID that is pending.
abbrev pub collect_one : Python → Text → Text → Reply → Collected → Collected
collect_one f id action unreachable c = record c { pending = c.pending ++ (id, action) ∷ [] }
collect_one f id action (answered status body) c =
    if status == 404
    then record c { pending = c.pending ++ (id, action) ∷ [] }
    else record c { results = c.results ++ collected f id action (payload_of body) ∷ [] }

-- The pending IDs of a round; those without a reply are pending after it.
unfoldable pub collect_round : Python → (Text → Reply) → List (Text × Text) → Collected → Collected
unfolding compact get given_text or_else
collect_round f replies [] c = c
collect_round f replies ((id, action) ∷ items) c =
    collect_round f replies items (collect_one f id action (replies id) c)

-- `while pending and ...`
unfoldable pub collect : Python → List (Text → Reply) → Collected → Collected
unfolding collect_round
collect f [] c = c
collect f (replies ∷ rounds) c = elim c.pending [
  | [] ↦ c
  | item ∷ items ↦
      collect f rounds (collect_round f replies (item ∷ items) (record c { pending = [] }))
]

abbrev pub ids : List (Text × Text) → List Text
ids [] = []
ids ((id, action) ∷ items) = id ∷ ids items

-- The summary of the results: how many were expected, the IDs without a result, and the results.
pub record Summary : Type 0 where
  pub mode : Fields
  pub expected : ℕ
  pub pending_ids : List Text
  pub results : List Outcome

abbrev pub outcome_json : (Outcome → Fields → Fields) → Outcome → Json
outcome_json more o = obj (
    field "id" (str o.id) (
      field "action" (str o.action) (
        field "success" (bool o.success)
          (field "error" (str o.error) (field "data" o.result_data (more o end))))))

abbrev pub summary_json : (Outcome → Fields → Fields) → Summary → Json
summary_json more s = obj (
    field "expected_count" (int s.expected) (
      field "completed_count" (int (length s.results)) (
        field "pending_ids" (arr (items_json (map str s.pending_ids))) (
          field "failed_count" (int (length (failures s.results)))
            (field "results" (arr (items_json (map (outcome_json more) s.results))) s.mode)))))

unfoldable pub comma_join : List Text → Text
comma_join [] = []
comma_join (t ∷ []) = t
comma_join (t ∷ u ∷ ts) = t ++ (codes ", " ++ comma_join (u ∷ ts))

abbrev pub collected_summary : ℕ → Collected → Summary
collected_summary expected c = record {
  mode = end;
  expected = expected;
  pending_ids = sort_by text_leb (ids c.pending);
  results = c.results;
}
