-- ===== src/Runtime/JobQueue.antt =====
-- crates/misaka-runtime/src/queue.rs, and LocalJob of state.rs. The mutex makes each operation one step.
use misaka.Prelude.{
  ℕ, Text, Bool, true, false, Option, none, some, List, [], ◌∷◌, ◌++◌, if◌then◌else◌,
}
use misaka.Core.Types.{CommandAuthorization}
use misaka.Core.Job.{JobStatus, queued}

pub record LocalJob : Type 0 where
  pub id : Text
  pub command : Text
  pub status : JobStatus
  pub started_at : Option ℕ
  pub finished_at : Option ℕ
  pub result_output : Option Text
  pub creator : ℕ
  pub creator_addr : Option Text
  pub authorization : Option CommandAuthorization

-- LocalJob::new
unfoldable pub new_job : Text → Text → LocalJob
new_job id command = record {
  id = id;
  command = command;
  status = queued;
  started_at = none;
  finished_at = none;
  result_output = none;
  creator = 0;
  creator_addr = none;
  authorization = none;
}

-- A VecDeque, its front first.
abbrev pub JobQueue : Type 0
JobQueue = List LocalJob

unfoldable pub push : JobQueue → LocalJob → JobQueue
push q job = q ++ job ∷ []

unfoldable pub pop : JobQueue → Option LocalJob × JobQueue
pop [] = (none, [])
pop (job ∷ q) = (some job, q)

-- The first job of which the predicate holds, and the others in order.
unfoldable pub pop_where : (LocalJob → Bool) → JobQueue → Option LocalJob × JobQueue
pop_where p [] = (none, [])
pop_where p (job ∷ q) =
    let (found, rest) = pop_where p q in if p job then (some job, q) else (found, job ∷ rest)

unfoldable pub is_empty : JobQueue → Bool
is_empty [] = true
is_empty (job ∷ q) = false
