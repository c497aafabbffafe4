-- ===== src/Runtime/JobManager.antt =====
-- crates/misaka-runtime/src/job_manager.rs: the owner of job metadata, queue and waiters. Each method
-- holds its locks to the end, so it is one step. A oneshot sender is a number.
pub mod Transfer
pub mod Life
pub mod Known
use misaka.Prelude.{
  ℕ, zero, suc, Text, Bool, true, false, not, ◌||◌, Option, none, some, List, [], ◌∷◌, map, ◌==◌,
  nat_eq, bytes_eq, if◌then◌else◌, any, length,
}
use misaka.Prelude.Map
use misaka.Prelude.Map.{Map}
use misaka.Core.Types.{CommandAuthorization, Principal, human, sister}
use misaka.Core.Job.{
  JobStatus, queued, running, transferred, completed, failed, job_status_eq, JobResultData, as_str,
}
use misaka.Runtime.JobQueue
use misaka.Runtime.JobQueue.{LocalJob, JobQueue}

pub record JobManager : Type 0 where
  pub queue : JobQueue
  pub jobs : Map Text LocalJob
  pub pending : Map Text ℕ

unfoldable pub new : JobManager
new = record { queue = []; jobs = []; pending = [] }

unfoldable pub enqueue : JobManager → LocalJob → JobManager
enqueue m job = record m { queue = JobQueue.push m.queue job; jobs = Map.insert job.id job m.jobs }

unfoldable pub start_inline : JobManager → LocalJob → ℕ → JobManager
start_inline m job started_at = record m {
  jobs = Map.insert job.id (record job { status = running; started_at = some started_at }) m.jobs;
}

unfoldable pub pop : JobManager → Option LocalJob × JobManager
pop m = let (job, rest) = JobQueue.pop m.queue in (job, record m { queue = rest })

-- Principal::Sister with that number
unfoldable pub is_sister : Option Principal → ℕ → Bool
is_sister none requester = false
is_sister (some (human h)) requester = false
is_sister (some (sister s)) requester = s.number == requester

unfoldable pub may_transfer : Option CommandAuthorization → ℕ → Bool → Bool
unfolding is_sister
may_transfer none requester allow_unauthenticated = allow_unauthenticated
may_transfer (some authorization) requester allow_unauthenticated =
    is_sister authorization.target requester

unfoldable pub job_transferable : LocalJob → ℕ → Bool → Bool
unfolding may_transfer
job_transferable job requester allow_unauthenticated =
    may_transfer job.authorization requester allow_unauthenticated

unfoldable pub pop_transferable : JobManager → ℕ → Bool → Option LocalJob × JobManager
unfolding job_transferable
pop_transferable m requester allow_unauthenticated =
    let (job, rest) =
      JobQueue.pop_where (λ job. job_transferable job requester allow_unauthenticated) m.queue in
    (job, record m { queue = rest })

unfoldable pub push_back : JobManager → LocalJob → JobManager
push_back m job = record m { queue = JobQueue.push m.queue job }

unfoldable pub queue_len : JobManager → ℕ
queue_len m = length m.queue

unfoldable pub queue_is_empty : JobManager → Bool
queue_is_empty m = JobQueue.is_empty m.queue

unfoldable pub is_active : LocalJob → Bool
is_active job = job.status == queued || job.status == running

unfoldable pub is_busy : JobManager → Bool
unfolding queue_is_empty is_active
is_busy m = not (queue_is_empty m) || any is_active (Map.values m.jobs)

-- `get_mut`, and the change when there is a job.
unfoldable pub update_found :
    Option LocalJob → (LocalJob → LocalJob) → Text → JobManager → JobManager
update_found none change id m = m
update_found (some job) change id m = record m { jobs = Map.insert id (change job) m.jobs }

unfoldable pub update : JobManager → Text → (LocalJob → LocalJob) → JobManager
unfolding update_found
update m id change = update_found (Map.lookup id m.jobs) change id m

unfoldable pub mark_running : JobManager → Text → ℕ → JobManager
unfolding update
mark_running m id started_at =
    update m id (λ job. record job { status = running; started_at = some started_at })

unfoldable pub mark_transferred : JobManager → Text → JobManager
unfolding update
mark_transferred m id = update m id (λ job. record job { status = transferred })

unfoldable pub finished : JobResultData → LocalJob → LocalJob
finished result job = record job {
  status = (if result.success then completed else failed);
  finished_at = some result.finished_at;
  result_output = some result.output;
}

unfoldable pub mark_finished : JobManager → Text → JobResultData → JobManager
unfolding update finished
mark_finished m id result = update m id (finished result)

-- The receiver's end of the channel has the number of its sender.
unfoldable pub reserve_pending : JobManager → Text → ℕ → JobManager
reserve_pending m id sender = record m { pending = Map.insert id sender m.pending }

unfoldable pub resolve_pending : JobManager → Text → Option ℕ × JobManager
resolve_pending m id = (Map.lookup id m.pending, record m { pending = Map.remove id m.pending })

unfoldable pub cancel_pending : JobManager → Text → JobManager
cancel_pending m id = record m { pending = Map.remove id m.pending }

unfoldable pub count_status : JobStatus → List LocalJob → ℕ
count_status status [] = 0
count_status status (job ∷ rest) =
    let n = count_status status rest in if job.status == status then suc n else n

unfoldable pub count_queued : JobManager → ℕ
unfolding count_status
count_queued m = count_status queued (Map.values m.jobs)

unfoldable pub count_running : JobManager → ℕ
unfolding count_status
count_running m = count_status running (Map.values m.jobs)

unfoldable pub job : JobManager → Text → Option LocalJob
job m id = Map.lookup id m.jobs

unfoldable pub all_jobs : JobManager → List LocalJob
all_jobs m = Map.values m.jobs

pub record JobSnapshot : Type 0 where
  pub id : Text
  pub command : Text
  pub status : Text
  pub creator : ℕ
  pub started_at : Option ℕ
  pub finished_at : Option ℕ

unfoldable pub job_snapshots : JobManager → List JobSnapshot
unfolding all_jobs as_str
job_snapshots m =
    map
      (λ j. record {
        id = j.id;
        command = j.command;
        status = as_str j.status;
        creator = j.creator;
        started_at = j.started_at;
        finished_at = j.finished_at;
      })
      (all_jobs m)
