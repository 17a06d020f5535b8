-- ===== src/Queue/Status.antt =====
-- The status hash of a job (backend/queue/streams.py): its fields, and how they are read.
-- A field that holds a number, a flag or JSON text is given by what the text stands for, with a
-- case for text that does not parse.
use cga.Prelude.{
  ℕ, String, Bool, true, false, Option, none, some, List, [], leb, ◌==◌, if◌then◌else◌,
}
use cga.Queue.Job.{IndexJob, JobType}

-- `JobStatus`, the `publishing` that precedes it, and any other text.
pub data Phase : Type 0 where
  publishing pending processing retrying done failed unknown : Phase

-- A decimal text as Python's `int` reads it.
pub data NumText : Type 0 where
  nat : ℕ → NumText
  negative corrupt : NumText

-- The text of a stream ID: empty, an entry's ID, or anything else.
pub data IdText : Type 0 where
  blank : IdText
  entry : ℕ → IdText
  garbled : IdText

-- The `errors` field: a text that reports none ("", "0", "[]", "null", "false"), or another.
pub data Reported : Type 0 where
  clear : Reported
  reported : String → Reported

-- One item of the attempt history; a missing key is `none`, and a missing list is empty.
pub record Item : Type 0 where
  pub attempt : Option ℕ
  pub started_at : Option String
  pub finished_at : Option String
  pub status : Option Phase
  pub error : Option String
  pub previous_errors : List String
  pub previous_reported_errors : Option String
  pub raw : Option String

abbrev pub blank_item : Item
blank_item = record {
  attempt = none;
  started_at = none;
  finished_at = none;
  status = none;
  error = none;
  previous_errors = [];
  previous_reported_errors = none;
  raw = none;
}

-- The `attempt_history` field: a JSON list of objects, or a text that is none.
pub data HistoryText : Type 0 where
  readable : List Item → HistoryText
  unreadable : String → HistoryText

-- The fields of the hash; `none` is a field that is not there.
pub record Hash : Type 0 where
  pub job_id : Option String
  pub job_type : Option JobType
  pub repo_path : Option String
  pub project_name : Option String
  pub status : Option Phase
  pub stream_id : Option IdText
  pub created_at : Option String
  pub updated_at : Option String
  pub payload : Option String
  pub max_attempts : Option ℕ
  pub attempts : Option NumText
  pub attempt_history : Option HistoryText
  pub terminal : Option Bool
  pub dead_letter : Option Bool
  pub error : Option String
  pub errors : Option Reported
  pub stats : Option String
  pub next_retry_at_ms : Option NumText
  pub recovery_action : Option String
  pub heartbeat_at : Option String
  pub consumer : Option String

-- What HGETALL gives for a key that does not exist.
abbrev pub no_fields : Hash
no_fields = record {
  job_id = none;
  job_type = none;
  repo_path = none;
  project_name = none;
  status = none;
  stream_id = none;
  created_at = none;
  updated_at = none;
  payload = none;
  max_attempts = none;
  attempts = none;
  attempt_history = none;
  terminal = none;
  dead_letter = none;
  error = none;
  errors = none;
  stats = none;
  next_retry_at_ms = none;
  recovery_action = none;
  heartbeat_at = none;
  consumer = none;
}

abbrev is_terminal_phase : Option Phase → Option Bool → Bool
is_terminal_phase (some done) t = true
is_terminal_phase (some failed) (some true) = true
is_terminal_phase _ _ = false

-- `_terminal`
unfoldable pub is_terminal : Hash → Bool
is_terminal h = is_terminal_phase h.status h.terminal

abbrev read_attempts : Option NumText → ℕ → ℕ
read_attempts none fallback = fallback
read_attempts (some (nat n)) fallback = n
read_attempts (some negative) fallback = 0
read_attempts (some corrupt) fallback = 10

-- `_attempt_count`
unfoldable pub attempt_count : Hash → ℕ → ℕ
attempt_count h fallback = read_attempts h.attempts fallback

abbrev read_due : Option NumText → ℕ → Bool
read_due none now = true
read_due (some (nat n)) now = leb n now
read_due (some negative) now = true
read_due (some corrupt) now = true

-- `_retry_due`
unfoldable pub retry_due : Hash → ℕ → Bool
retry_due h now = read_due h.next_retry_at_ms now

abbrev foreign_id : Option IdText → ℕ → Bool
foreign_id (some (entry n)) mid = if n == mid then false else true
foreign_id (some garbled) mid = true
foreign_id _ mid = false

-- `status.get("stream_id") not in (None, "", message_id)`
unfoldable pub is_elsewhere : Hash → ℕ → Bool
is_elsewhere h mid = foreign_id h.stream_id mid

abbrev same_id : Option IdText → ℕ → Bool
same_id (some (entry n)) mid = n == mid
same_id _ mid = false

-- `status.get("stream_id") == message_id`
unfoldable pub is_at : Hash → ℕ → Bool
is_at h mid = same_id h.stream_id mid

abbrev is_phase_retrying : Option Phase → Bool
is_phase_retrying (some retrying) = true
is_phase_retrying _ = false

-- `status.get("status") == "retrying"`
unfoldable pub is_retrying : Hash → Bool
is_retrying h = is_phase_retrying h.status

-- `a or b` on texts: a missing or an empty text gives way to `b`.
abbrev pub or_text : Option String → String → String
or_text none b = b
or_text (some String.[]) b = b
or_text (some (String.◌∷◌ c s)) b = String.◌∷◌ c s

-- `_base_status`, as a HSET over the fields that are there: `stamp` is `_now()`, and `dump` is
-- `model_dump_json`.
unfoldable pub base_status : (IndexJob → String) → IndexJob → Phase → IdText → String → Hash → Hash
base_status dump job phase sid stamp h = record h {
  job_id = some job.job_id;
  job_type = some job.job_type;
  repo_path = some job.repo_path;
  project_name = some (or_text job.project_name "");
  status = some phase;
  stream_id = some sid;
  created_at = some job.created_at;
  updated_at = some stamp;
  payload = some (dump job);
  max_attempts = some job.max_attempts;
}
