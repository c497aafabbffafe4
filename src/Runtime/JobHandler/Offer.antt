-- ===== src/Runtime/JobHandler/Offer.antt =====
-- crates/misaka-runtime/src/handler.rs: the JobRequest branch loses no job.
use misaka.Runtime.JobQueue
use misaka.Runtime.JobQueue.{JobQueue}
use misaka.Runtime.JobManager.{JobManager}
