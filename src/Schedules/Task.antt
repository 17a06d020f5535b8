-- ===== src/Schedules/Task.antt =====
-- `schedules/models.py`: a scheduled task, the checks of a new one, and the merge of an update.
use cga.Prelude.{ℕ, Bool, true, false, ◌&&◌, ◌||◌, not, Option, none, some, [], ◌∷◌, length, leb}
use cga.Text.{Text, codes, starts_with}
use cga.Http.{Result, ok, error, ◌>>=◌, ◌>>◌}
use cga.Json.{Fields, end}

pub data TaskType : Type 0 where
  agent_activation browseragent_task http_request extension_task : TaskType

-- `ScheduledTaskCreate`
pub record TaskCreate : Type 0 where
  pub name : Text
  pub description : Text
  pub task_type : TaskType
  pub project_id : Option ℕ
  pub agent_id : Text
  pub target_url : Text
  pub payload : Fields
  pub cadence_minutes : ℕ
  pub timeout_seconds : ℕ
  pub enabled : Bool

-- What a test of the model raises is a ValueError.
abbrev pub check : Bool → Result (Unit {0})
check true = ok tt
check false = error

abbrev at_least_one : Option ℕ → Bool
at_least_one none = true
at_least_one (some n) = leb 1 n

-- The bounds of the fields, which are tested before the texts are trimmed.
unfoldable pub is_bounded : TaskCreate → Bool
is_bounded b =
    (leb 3 (length b.name) && leb (length b.name) 100)
    && (leb (length b.description) 1000
        && (at_least_one b.project_id
            && (leb (length b.agent_id) 128
                && (leb (length b.target_url) 512
                    && ((leb 1 b.cadence_minutes && leb b.cadence_minutes 43200)
                        && (leb 1 b.timeout_seconds && leb b.timeout_seconds 600))))))

abbrev pub is_blank : Text → Bool
is_blank [] = true
is_blank (c ∷ s) = false

-- `validate_target_url`
unfoldable pub is_url : Text → Bool
is_url url =
    is_blank url || (starts_with (codes "http://") url || starts_with (codes "https://") url)

abbrev pub is_extension : TaskType → Bool
is_extension extension_task = true
is_extension _ = false

-- `validate_enabled_target`
abbrev has_target : TaskCreate → Bool
has_target b = not (b.enabled && (not (is_extension b.task_type) && is_blank b.target_url))

-- `trim_text`; `strip` is `str.strip`.
unfoldable pub trimmed : (Text → Text) → TaskCreate → TaskCreate
trimmed strip b = record b {
  name = strip b.name;
  description = strip b.description;
  agent_id = strip b.agent_id;
  target_url = strip b.target_url;
}

-- The task that the model lets through.
unfoldable pub validate : (Text → Text) → TaskCreate → Result TaskCreate
unfolding is_bounded trimmed is_url
validate strip b = do
  check (is_bounded b)
  check (is_url (trimmed strip b).target_url)
  check (has_target (trimmed strip b))
  ok (trimmed strip b)

-- A key of an update: not sent, sent as null, or with a value.
pub data Sent (A : Type 0) : Type 0 where
  unset : Sent A
  null : Sent A
  set : A → Sent A

-- `ScheduledTaskUpdate`
pub record TaskUpdate : Type 0 where
  pub name : Sent Text
  pub description : Sent Text
  pub task_type : Sent TaskType
  pub project_id : Sent ℕ
  pub agent_id : Sent Text
  pub target_url : Sent Text
  pub payload : Sent Fields
  pub cadence_minutes : Sent ℕ
  pub timeout_seconds : Sent ℕ
  pub enabled : Sent Bool

abbrev pub is_sent : {A : Type 0} → Sent A → Bool
is_sent unset = false
is_sent null = true
is_sent (set a) = true

-- `merged[key]`, which the model refuses when it is None.
abbrev pub required : {A : Type 0} → Sent A → A → Result A
required unset current = ok current
required null current = error
required (set a) current = ok a

-- `merged.get(key) or fallback`
abbrev pub optional : {A : Type 0} → Sent A → A → A → A
optional unset current fallback = current
optional null current fallback = fallback
optional (set a) current fallback = a

abbrev pub nullable : {A : Type 0} → Sent A → Option A → Option A
nullable unset current = current
nullable null current = none
nullable (set a) current = some a

-- `if not changes`
unfoldable pub has_changes : TaskUpdate → Bool
has_changes u =
    is_sent u.name
    || (is_sent u.description
        || (is_sent u.task_type
            || (is_sent u.project_id
                || (is_sent u.agent_id
                    || (is_sent u.target_url
                        || (is_sent u.payload
                            || (is_sent u.cadence_minutes
                                || (is_sent u.timeout_seconds || is_sent u.enabled))))))))

-- The candidate of `update_scheduled_task`, before its checks.
unfoldable pub merge : TaskUpdate → TaskCreate → Result TaskCreate
merge u current = do
  name ← required u.name current.name
  task_type ← required u.task_type current.task_type
  cadence ← required u.cadence_minutes current.cadence_minutes
  timeout ← required u.timeout_seconds current.timeout_seconds
  enabled ← required u.enabled current.enabled
  ok (record {
    name = name;
    description = optional u.description current.description [];
    task_type = task_type;
    project_id = nullable u.project_id current.project_id;
    agent_id = optional u.agent_id current.agent_id [];
    target_url = optional u.target_url current.target_url [];
    payload = optional u.payload current.payload end;
    cadence_minutes = cadence;
    timeout_seconds = timeout;
    enabled = enabled;
  })
