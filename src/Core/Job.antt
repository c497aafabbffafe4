-- ===== src/Core/Job.antt =====
-- crates/misaka-core/src/job.rs and protocol.rs: the status of a job and its result.
use misaka.Prelude.{ℕ, Text, Bool, Eq, codes}

pub data JobStatus : Type 0 where
  queued running transferred completed failed : JobStatus

unfoldable pub JobStatus-discrete : Discrete JobStatus
JobStatus-discrete = hlevel

instance abbrev pub job_status_eq : Eq JobStatus
job_status_eq = record { dec = JobStatus-discrete }

-- JobStatus::as_str
unfoldable pub as_str : JobStatus → Text
as_str queued = codes "queued"
as_str running = codes "running"
as_str transferred = codes "transferred"
as_str completed = codes "completed"
as_str failed = codes "failed"

-- An exit code is an i32, given by its 32 bits.
pub record JobResultData : Type 0 where
  pub job_id : Text
  pub creator : ℕ
  pub executor : ℕ
  pub output : Text
  pub exit_code : ℕ
  pub success : Bool
  pub started_at : ℕ
  pub finished_at : ℕ
