-- ===== src/Runtime/JobManager/Known.antt =====
-- crates/misaka-runtime/src/job_manager.rs: a queued job can be looked up.
use misaka.Prelude.{
  ◌≡◌, refl, ◌∙◌, inl, inr, Text, Bool, some, List, [], ◌∷◌, ◌==◌, bytes_eq, All, All-append,
  Bool-cases, Option-cases, arith,
}
use misaka.Prelude.Map
use misaka.Prelude.Map.{Map}
use misaka.Runtime.JobQueue
use misaka.Runtime.JobQueue.{LocalJob, JobQueue}
use misaka.Runtime.JobManager.{
  JobManager, enqueue, start_inline, pop, pop_transferable, push_back, update_found, update,
  mark_running, mark_transferred, mark_finished, reserve_pending, resolve_pending, cancel_pending,
}
use misaka.Runtime.JobManager.Life.{
  Call, enqueues, starts, pops, transfers, returns, marks_running, marks_transferred,
  marks_finished, reserves, resolves, cancels, step, run,
}

-- There is metadata under the job's id.
unfoldable pub IsKnown : Map Text LocalJob → LocalJob → Type 0
IsKnown jobs j = (r : LocalJob) × (Map.lookup j.id jobs ≡ some r)

-- A job that a call puts back is known.
unfoldable pub ReturnsKnown : JobManager → List Call → Type 0
ReturnsKnown m [] = Unit
ReturnsKnown m (returns j ∷ cs) = IsKnown m.jobs j × ReturnsKnown (step m (returns j)) cs
ReturnsKnown m (c ∷ cs) = ReturnsKnown (step m c) cs

insert-IsKnown :
    (id : Text) (job : LocalJob) (jobs : Map Text LocalJob) (j : LocalJob)
    → IsKnown jobs j
    → IsKnown (Map.insert id job jobs) j
unfolding IsKnown
insert-IsKnown id job jobs j k = elim (Bool-cases (id == j.id)) [
  | inl t ↦ (job, Map.lookup-insert id j.id job jobs ∙ rw t refl)
  | inr t ↦ (k.0, Map.lookup-insert id j.id job jobs ∙ rw t k.1)
]

insert-All :
    (id : Text) (job : LocalJob) (jobs : Map Text LocalJob) (q : JobQueue)
    → All (IsKnown jobs) q
    → All (IsKnown (Map.insert id job jobs)) q
insert-All id job jobs [] h = tt
insert-All id job jobs (j ∷ q) h = (insert-IsKnown id job jobs j h.0, insert-All id job jobs q h.1)

new-IsKnown : (job : LocalJob) (jobs : Map Text LocalJob) → IsKnown (Map.insert job.id job jobs) job
unfolding IsKnown
new-IsKnown job jobs = (job, Map.lookup-insert job.id job.id job jobs ∙ ground arith)

pop_where-All :
    (P : LocalJob → Type 0) (p : LocalJob → Bool) (q : JobQueue)
    → All P q
    → All P (JobQueue.pop_where p q).1
unfolding JobQueue.pop_where
pop_where-All P p [] h = tt
pop_where-All P p (j ∷ q) h = elim (Bool-cases (p j)) [
  | inl t ↦ rw t h.1
  | inr t ↦ rw t (h.0, pop_where-All P p q h.1)
]

pop-All : (P : LocalJob → Type 0) (q : JobQueue) → All P q → All P (JobQueue.pop q).1
unfolding JobQueue.pop
pop-All P [] h = tt
pop-All P (j ∷ q) h = h.1

update-Known :
    (m : JobManager) (id : Text) (change : LocalJob → LocalJob)
    → All (IsKnown m.jobs) m.queue
    → All (IsKnown (update m id change).jobs) (update m id change).queue
unfolding update update_found
update-Known m id change h = elim (Option-cases (Map.lookup id m.jobs)) [
  | inl p ↦ rw p h
  | inr (j, p) ↦ rw p (insert-All id (change j) m.jobs m.queue h)
]

-- After any calls on a manager whose queued jobs are known, every queued job has metadata under its id,
-- when each job that is put back has.
pub run-IsKnown :
    (m : JobManager) (cs : List Call)
    → All (IsKnown m.jobs) m.queue
    → ReturnsKnown m cs
    → All (IsKnown (run m cs).jobs) (run m cs).queue
unfolding run ReturnsKnown step enqueue start_inline pop pop_transferable push_back mark_running
    mark_transferred mark_finished reserve_pending resolve_pending cancel_pending JobQueue.push
run-IsKnown m [] h k = h
run-IsKnown m (enqueues job ∷ cs) h k =
    run-IsKnown (step m (enqueues job)) cs
      (All-append _ m.queue _ (insert-All job.id job m.jobs m.queue h) (new-IsKnown job m.jobs, tt))
      k
run-IsKnown m (starts job at ∷ cs) h k =
    run-IsKnown (step m (starts job at)) cs (insert-All job.id _ m.jobs m.queue h) k
run-IsKnown m (pops ∷ cs) h k = run-IsKnown (step m pops) cs (pop-All _ m.queue h) k
run-IsKnown m (transfers requester allow ∷ cs) h k =
    run-IsKnown (step m (transfers requester allow)) cs (pop_where-All _ _ m.queue h) k
run-IsKnown m (returns job ∷ cs) h k =
    run-IsKnown (step m (returns job)) cs (All-append _ m.queue _ h (k.0, tt)) k.1
run-IsKnown m (marks_running id at ∷ cs) h k =
    run-IsKnown (step m (marks_running id at)) cs (update-Known m id _ h) k
run-IsKnown m (marks_transferred id ∷ cs) h k =
    run-IsKnown (step m (marks_transferred id)) cs (update-Known m id _ h) k
run-IsKnown m (marks_finished id result ∷ cs) h k =
    run-IsKnown (step m (marks_finished id result)) cs (update-Known m id _ h) k
run-IsKnown m (reserves id sender ∷ cs) h k = run-IsKnown (step m (reserves id sender)) cs h k
run-IsKnown m (resolves id ∷ cs) h k = run-IsKnown (step m (resolves id)) cs h k
run-IsKnown m (cancels id ∷ cs) h k = run-IsKnown (step m (cancels id)) cs h k
