-- ===== src/Schedules/Browser.antt =====
-- `schedules/service.py`: the payload of the request that a task sends, and the commands of a browser test.
use cga.Prelude.{
  ℕ, suc, ◌-◌, Bool, true, false, not, ◌||◌, Option, none, some, List, [], ◌∷◌, ◌++◌, length, drop,
  keep, map, if◌then◌else◌,
}
use cga.Text.{Text, codes, starts_with, decimal}
use cga.Json.{
  Json, null, bool, int, str, arr, obj, Items, nil, cons, Fields, end, field, get, items_of, truthy,
  or_else, to_text, given_text,
}
use cga.Schedules.Task.{
  TaskType, agent_activation, browseragent_task, http_request, extension_task, is_blank,
}
use cga.Schedules.Table.{Task}

-- A value, or an exception with its text.
pub data Try (A : Type 0) : Type 0 where
  done : A → Try A
  raised : Text → Try A

-- What Python and the database give: `str.strip`, `str.lower`, `str.splitlines`, `str.isalnum` of a character, `str(value)` of a
-- value that is no text, `int(value) < 1`, and the external ID of a project.
pub record Python : Type 0 where
  pub strip : Text → Text
  pub lower : Text → Text
  pub splitlines : Text → List Text
  pub is_alnum : ℕ → Bool
  pub shown : Json → Text
  pub below_one : Json → Try Bool
  pub external_id : Option ℕ → Json

infixl 5 ◌>>=◌
abbrev pub ◌>>=◌ : {A B : Type 0} → Try A → (A → Try B) → Try B
done a >>= rest = rest a
raised text >>= rest = raised text

abbrev pub dict_of : Option Json → Fields
dict_of (some (obj fs)) = fs
dict_of _ = end

-- `_as_text_list`
abbrev candidates : Python → Option Json → List Text
candidates f (some (str s)) = f.splitlines s
candidates f (some (arr vs)) = map (to_text f.shown) (items_of vs)
candidates f _ = []

unfoldable pub as_text_list : Python → Option Json → List Text
unfolding items_of
as_text_list f v = keep (λ t. not (is_blank t)) (map f.strip (candidates f v))

-- `_browser_task_spec`, where it is not empty: the callers test it.
abbrev pub spec_of : Option Json → Option Fields
spec_of (some (obj (field k v fs))) = some (field k v fs)
spec_of _ = none

unfoldable pub browser_task_spec : Fields → Option Fields
unfolding get
browser_task_spec payload = spec_of (get payload "browser_task")

pub record Artifacts : Type 0 where
  pub screenshot : Bool
  pub console : Bool
  pub metrics : Bool
  pub dom_snapshot : Bool

abbrev flag_or : Bool → Option Json → Bool
flag_or default none = default
flag_or default (some v) = truthy v

-- `_browser_task_artifacts`
unfoldable pub browser_task_artifacts : Fields → Artifacts
unfolding get truthy
browser_task_artifacts spec =
    let raw = dict_of (get spec "artifacts") in
    record {
      screenshot = flag_or true (get raw "screenshot");
      console = flag_or true (get raw "console");
      metrics = flag_or true (get raw "metrics");
      dom_snapshot = flag_or false (get raw "dom_snapshot");
    }

-- `_command_run_suffix`; `clock` is `str(int(time.time()))`.
abbrev or_clock : Text → Text → Text
or_clock clock [] = clock
or_clock clock (c ∷ s) = c ∷ s

unfoldable pub command_run_suffix : Python → Text → Text → Text
command_run_suffix f clock value =
    let text = keep f.is_alnum value in or_clock clock (drop (length text - 16) text)

-- A command of the browser, and its JSON.
pub record Command : Type 0 where
  pub id : Text
  pub action : Text
  pub params : Fields

abbrev pub command_json : Command → Json
command_json c =
    obj (field "id" (str c.id) (field "action" (str c.action) (field "params" (obj c.params) end)))

unfoldable pub assertions : Text → ℕ → List Text → List Command
unfolding decimal
assertions prefix n [] = []
assertions prefix n (t ∷ ts) =
    record {
      id = prefix ++ (codes "-assert" ++ decimal n);
      action = codes "findText";
      params = field "text" (str t) (field "caseSensitive" (bool false) end);
    }
    ∷ assertions prefix (suc n) ts

-- A command, where it is asked for.
abbrev asked : Bool → Command → List Command
asked true c = c ∷ []
asked false c = []

unfoldable pub artifact_commands : Text → Artifacts → List Command
artifact_commands prefix a =
    asked a.console (record {
      id = prefix ++ codes "-console";
      action = codes "captureConsole";
      params = field "durationMs" (int 1000) end;
    })
    ++ (asked a.metrics (record {
      id = prefix ++ codes "-metrics";
      action = codes "getPageMetrics";
      params = end;
    })
        ++ (asked a.dom_snapshot
              (record { id = prefix ++ codes "-dom"; action = codes "getContent"; params = end })
            ++ asked a.screenshot (record {
              id = prefix ++ codes "-screenshot";
              action = codes "screenshot";
              params = end;
            })))

unfoldable pub page_url : Python → Fields → Text
unfolding get or_else given_text
page_url f spec = f.strip (given_text f.shown (or_else (get spec "url") (get spec "target_url")))

-- The commands of `_build_browseragent_page_test_payload`, after its checks of the URL.
unfoldable pub page_test_commands : Python → Text → Task → Fields → Text → List Command
unfolding assertions artifact_commands as_text_list browser_task_artifacts command_run_suffix
    page_url
page_test_commands f clock task spec run_id =
    let prefix = task.task_id ++ (b'-' ∷ command_run_suffix f clock run_id) in
    record {
      id = prefix ++ codes "-open";
      action = codes "newTab";
      params = field "url" (str (page_url f spec)) (field "active" (bool true) end);
    }
    ∷ (assertions prefix 1 (as_text_list f (get spec "assertions"))
        ++ artifact_commands prefix (browser_task_artifacts spec))

unfoldable pub build_page_test : Python → Text → Task → Fields → Text → Try (List Command)
unfolding page_test_commands
build_page_test f clock task spec run_id =
    let url = page_url f spec in
    if is_blank url
    then raised (codes "browser_task.url is required")
    else if starts_with (codes "http://") url || starts_with (codes "https://") url
    then done (page_test_commands f clock task spec run_id)
    else raised (codes "browser_task.url must start with http:// or https://")

abbrev pub items_json : List Json → Items
items_json [] = nil
items_json (v ∷ vs) = cons v (items_json vs)

abbrev pub number_or_null : Option ℕ → Json
number_or_null none = null
number_or_null (some n) = int n

abbrev page_test_payload : Python → Task → Fields → List Command → Fields
page_test_payload f task spec commands =
    field "commands" (arr (items_json (map command_json commands))) (
      field "metadata"
        (obj (
          field "schedule_task_id" (str task.task_id) (
            field "schedule_db_id" (int task.id) (
              field "task_name" (str task.body.name) (
                field "project_id" (f.external_id task.body.project_id)
                  (field "browser_task" (obj spec) end))))))
        end)

abbrev value_or_null : Option Json → Json
value_or_null none = null
value_or_null (some v) = v

abbrev browser_payload : Python → Text → Task → Text → Option Fields → Try Fields
browser_payload f clock task run_id none = done task.body.payload
browser_payload f clock task run_id (some spec) =
    build_page_test f clock task spec run_id >>= λ commands.
    done (page_test_payload f task spec commands)

-- `build_request_payload`
abbrev payload_for : Python → Text → Task → Text → TaskType → Try Fields
payload_for f clock task run_id agent_activation = done (
    field "action" (str (codes "activate_agent")) (
      field "agent_id" (str task.body.agent_id) (
        field "project_id" (f.external_id task.body.project_id)
          (field "payload" (obj task.body.payload) end))))
payload_for f clock task run_id extension_task = done (
    field "extension_id" (value_or_null (get task.body.payload "extension_id")) (
      field "project_id" (number_or_null task.body.project_id) (
        field "project_external_id" (f.external_id task.body.project_id) (
          field "config_override"
            (value_or_null (or_else (get task.body.payload "config_override") (some (obj end))))
            end))))
payload_for f clock task run_id browseragent_task =
    browser_payload f clock task run_id (browser_task_spec task.body.payload)
payload_for f clock task run_id http_request = done task.body.payload

unfoldable pub build_request_payload : Python → Text → Task → Text → Try Fields
unfolding build_page_test browser_task_spec get or_else
build_request_payload f clock task run_id = payload_for f clock task run_id task.body.task_type
