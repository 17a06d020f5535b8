-- ===== src/Queue/Job.antt =====
-- backend/queue/models.py: the jobs that travel through the stream.
use cga.Prelude.{ℕ, ◌≤◌, String, Option, List}

pub data JobType : Type 0 where
  index_full index_incremental : JobType

-- The dates are ISO texts; `max_attempts` is checked to lie between 1 and 10 on construction.
pub record IndexJob : Type 0 where
  pub job_id : String
  pub job_type : JobType
  pub repo_path : String
  pub changed_paths : Option (List String)
  pub project_name : Option String
  pub max_attempts : ℕ
  pub created_at : String

-- What pydantic checks of `max_attempts`: ge=1, le=10.
pub record IsValidJob (job : IndexJob) : Type 0 where
  pub at_least_one : 1 ≤ job.max_attempts
  pub at_most_ten : job.max_attempts ≤ 10

-- Texts that pydantic and Redis make: the JSON of a job, the job that a JSON text validates to, and
-- the text of a stream ID.
pub record Codec : Type 0 where
  pub dump : IndexJob → String
  pub load : String → Option IndexJob
  pub id_text : ℕ → String

-- A consumer: its name, and the length of its leases.
pub record Worker : Type 0 where
  pub name : String
  pub lease_ms : ℕ
