-- ===== src/Schedules/Workflow.antt =====
-- `schedules/service.py`: a browser agent runs commands, one after the other, and its results are awaited.
pub mod Replies
pub mod Succeeded
use cga.Prelude.{
  ℕ, zero, suc, ◌+◌, Bool, true, false, not, ◌&&◌, ◌||◌, Option, none, some, List, [], ◌∷◌, ◌++◌,
  ◌==◌, length, take, leb, map, if◌then◌else◌,
}
use cga.Text.{Text, codes, text_eq, has_text, contains, decimal}
use cga.Json.{
  Json, null, negative, bool, int, str, arr, obj, Fields, end, field, get, or_else, given_text,
}
use cga.Schedules.Compact.{compact}
use cga.Schedules.Browser.{Python, Try, done, raised, ◌>>=◌, Command}

-- The body of a response: nothing, JSON, or what `response.json` does not read.
pub data Body : Type 0 where
  empty : Body
  json : Json → Body
  unreadable : Text → Body

-- What a GET of a result comes to.
pub data Reply : Type 0 where
  unreachable : Reply
  answered : ℕ → Body → Reply

-- What a POST of a command comes to: an exception, or a status with a text.
pub data Posted : Type 0 where
  failed : Text → Posted
  answered : ℕ → Text → Posted

-- One attempt at a command: whether the deadline has passed, the POST, and the replies until the deadline.
pub record Attempt : Type 0 where
  pub late : Bool
  pub posted : Posted
  pub polls : List Reply

pub record Outcome : Type 0 where
  pub id : Text
  pub action : Text
  pub success : Bool
  pub error : Text
  pub result_data : Json
  pub attempts : ℕ

-- `result_payload` as a dict.
abbrev wrapped : Json → Fields
wrapped (obj fs) = fs
wrapped v = field "success" (bool false) (field "data" v end)

abbrev pub payload_of : Body → Fields
payload_of empty = end
payload_of (json v) = wrapped v
payload_of (unreadable text) =
    field "success" (bool false) (field "error" (str (take 1000 text)) end)

-- `value is not False`
abbrev pub is_not_false : Option Json → Bool
is_not_false (some (bool false)) = false
is_not_false _ = true

abbrev pub data_of : Option Json → Fields
data_of (some (obj fs)) = fs
data_of _ = end

-- `int(data.get("count") or 0) < 1`
abbrev or_zero : Option Json → Json
or_zero none = int 0
or_zero (some v) = v

unfoldable pub counts_nothing : Python → Fields → Try Bool
unfolding get or_else
counts_nothing f fs = f.below_one (or_zero (or_else (get fs "count") none))

-- `_compact_response_value(value)`
abbrev pub compacted : Python → Json → Json
compacted f v = compact f.lower (λ v. length (given_text f.shown (some v))) 0 v

-- The test of an assertion: a text that must be found.
abbrev pub is_assertion : Text → Text → Bool
is_assertion action id = text_eq action (codes "findText") && contains (codes "-assert") id

abbrev pub not_found : Python → Fields → Text
not_found f params =
    take 1000 (codes "Text assertion not found: " ++ given_text f.shown (get params "text"))

abbrev pub outcome : Python → Text → Text → Bool → Text → Fields → Outcome
outcome f id action success error fs = record {
  id = id;
  action = action;
  success = success;
  error = error;
  result_data = compacted f (obj fs);
  attempts = 0;
}

abbrev pub judged : Python → Text → Text → Fields → Fields → Bool → Outcome
judged f id action params payload true =
    outcome f id action false (not_found f params) (data_of (get payload "data"))
judged f id action params payload false =
    outcome f id action (is_not_false (get payload "success"))
      (take 1000 (given_text f.shown (get payload "error"))) (data_of (get payload "data"))

-- What `_wait_for_browseragent_result` makes of a payload.
unfoldable pub judge : Python → Text → Text → Fields → Fields → Try Outcome
unfolding counts_nothing contains get given_text compact
judge f id action params payload =
    if is_assertion action id
    then (counts_nothing f (data_of (get payload "data")) >>= λ nothing.
        done (judged f id action params payload nothing))
    else done (judged f id action params payload false)

abbrev pub gave_up : Text → Text → Text → ℕ → Outcome
gave_up id action error attempts = record {
  id = id;
  action = action;
  success = false;
  error = error;
  result_data = obj end;
  attempts = attempts;
}

-- `_wait_for_browseragent_result`, given the replies until the deadline.
unfoldable pub wait_for_result : Python → Text → Text → Fields → List Reply → Try Outcome
unfolding judge
wait_for_result f id action params [] =
    done (gave_up id action (codes "Timed out waiting for BrowserAgent result") 0)
wait_for_result f id action params (unreachable ∷ replies) =
    wait_for_result f id action params replies
wait_for_result f id action params (answered status body ∷ replies) =
    let rest = wait_for_result f id action params replies in
    if status == 404 then rest else judge f id action params (payload_of body)

-- What the attempts at a command leave: the commands that were posted, the last status, and the last result.
pub record Progress : Type 0 where
  pub items : List (Text × Text)
  pub status_code : Option ℕ
  pub result : Option Outcome

abbrev pub attempt_id : Text → ℕ → Text
attempt_id base attempt = if leb attempt 1 then base else base ++ (codes "-try" ++ decimal attempt)

abbrev pub with_attempts : ℕ → Outcome → Outcome
with_attempts n o = record o { attempts = n }

module _ (f : Python) (world : ℕ → Attempt) (base action : Text) (params : Fields) where
  abbrev pub progressed : ℕ → ℕ → Progress → Outcome → Progress
  progressed n status p o = record {
    items = p.items ++ (attempt_id base n, action) ∷ [];
    status_code = some status;
    result = some (with_attempts n o);
  }

  abbrev pub refused : ℕ → ℕ → Text → Progress → Progress
  refused n status text p = record p {
    status_code = some status;
    result = some (gave_up (attempt_id base n) action (take 1000 text) n);
  }

  -- After a result: the end of the loop, or `rest`, which is the next round.
  abbrev pub settle : (Progress → Try Progress) → Progress → Bool → Try Progress
  settle rest p true = done p
  settle rest p false = rest p

  abbrev pub is_final : Outcome → Bool
  is_final o = o.success || not (text_eq action (codes "findText"))

  abbrev pub by_status : (Progress → Try Progress) → ℕ → Progress → ℕ → Text → Bool → Try Progress
  by_status rest n p status text true = done (refused n status text p)
  by_status rest n p status text false =
      wait_for_result f (attempt_id base n) action params (world n).polls >>= λ o.
      settle rest (progressed n status p o) (is_final o)

  abbrev pub by_post : (Progress → Try Progress) → ℕ → Progress → Posted → Try Progress
  by_post rest n p (failed text) = raised text
  by_post rest n p (answered status text) = by_status rest n p status text (leb 400 status)

  abbrev pub unless_late : (Progress → Try Progress) → ℕ → Progress → Bool → Try Progress
  unless_late rest n p true = done p
  unless_late rest n p false = by_post rest n p (world n).posted

  -- The loop over the attempts: so many are left, and the number of the next.
  unfoldable pub attempt_command : ℕ → ℕ → Progress → Try Progress
  unfolding wait_for_result decimal text_eq
  attempt_command zero n p = done p
  attempt_command (suc left) n p = unless_late (attempt_command left (suc n)) n p (world n).late

abbrev pub max_attempts : Text → ℕ
max_attempts action = if text_eq action (codes "findText") then 5 else 1

-- The state of the loop over the commands.
pub record Run : Type 0 where
  pub items : List (Text × Text)
  pub status_code : Option ℕ
  pub results : List Outcome
  pub tab_id : Option Json

abbrev has_key : Option Json → Bool
has_key none = false
has_key (some v) = true

abbrev pub in_tab : Text → Fields → Option Json → Fields
in_tab action params none = params
in_tab action params (some tab) =
    if has_text (codes "newTab" ∷ codes "navigate" ∷ codes "openNewWindow" ∷ []) action
      || has_key (get params "tabId")
    then params
    else field "tabId" tab params

-- `isinstance(tab_id, int)`, which a bool is too.
abbrev tab_or : Option Json → Option Json → Option Json
tab_or (some (int n)) tab = some (int n)
tab_or (some (negative n)) tab = some (negative n)
tab_or (some (bool b)) tab = some (bool b)
tab_or _ tab = tab

abbrev pub result_or : Text → Text → Option Outcome → Outcome
result_or id action none =
    gave_up id action (codes "Timed out before BrowserAgent command could complete")
      (max_attempts action)
result_or id action (some o) = o

abbrev pub advance : Command → Run → Progress → Run
advance c r p =
    let o = result_or c.id c.action p.result in
    record {
      items = p.items;
      status_code = p.status_code;
      results = r.results ++ o ∷ [];
      tab_id = tab_or (get (data_of (some o.result_data)) "tabId") r.tab_id;
    }

abbrev pub begin : Run → Progress
begin r = record { items = r.items; status_code = r.status_code; result = none }

-- The loop of `_execute_browseragent_workflow`; `world` has the attempts at each command. A command that
-- `build_page_test` built has an ID and an action.
unfoldable pub run_commands : Python → (ℕ → ℕ → Attempt) → ℕ → List Command → Run → Try Run
unfolding attempt_command has_text get
run_commands f world n [] r = done r
run_commands f world n (c ∷ cs) r =
    attempt_command f (world n) c.id c.action (in_tab c.action c.params r.tab_id)
      (max_attempts c.action) 1 (begin r)
    >>= λ p. run_commands f world (suc n) cs (advance c r p)

abbrev pub no_run : Run
no_run = record { items = []; status_code = none; results = []; tab_id = none }

-- `[item for item in results if not item["success"]]`
unfoldable pub failures : List Outcome → List Outcome
failures [] = []
failures (o ∷ os) = let rest = failures os in if o.success then rest else o ∷ rest
