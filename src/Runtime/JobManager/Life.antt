-- ===== src/Runtime/JobManager/Life.antt =====
-- crates/misaka-runtime/src/job_manager.rs: what any sequence of calls keeps.
use misaka.Prelude.{
  ℕ, ◌≡◌, refl, ap, ◌∙◌, ◌↔◌, inl, inr, Text, Bool, false, not, ◌||◌, none, List, [], ◌∷◌, ◌==◌,
  bytes_eq, any, Option-cases, arith,
}
use misaka.Prelude.Map
use misaka.Core.Job.{queued, running, job_status_eq, JobResultData}
use misaka.Runtime.JobQueue
use misaka.Runtime.JobQueue.{LocalJob, JobQueue}
use misaka.Runtime.JobManager.{
  JobManager, enqueue, start_inline, pop, pop_transferable, push_back, queue_is_empty, is_active,
  is_busy, update_found, update, mark_running, mark_transferred, mark_finished, reserve_pending,
  resolve_pending, cancel_pending, count_status, count_queued, count_running,
}

-- One call of a method that changes the manager.
pub data Call : Type 0 where
  enqueues : LocalJob → Call
  starts : LocalJob → ℕ → Call
  pops : Call
  transfers : ℕ → Bool → Call
  returns : LocalJob → Call
  marks_running : Text → ℕ → Call
  marks_transferred : Text → Call
  marks_finished : Text → JobResultData → Call
  reserves : Text → ℕ → Call
  resolves : Text → Call
  cancels : Text → Call

unfoldable pub step : JobManager → Call → JobManager
step m (enqueues job) = enqueue m job
step m (starts job at) = start_inline m job at
step m pops = (pop m).1
step m (transfers requester allow) = (pop_transferable m requester allow).1
step m (returns job) = push_back m job
step m (marks_running id at) = mark_running m id at
step m (marks_transferred id) = mark_transferred m id
step m (marks_finished id result) = mark_finished m id result
step m (reserves id sender) = reserve_pending m id sender
step m (resolves id) = (resolve_pending m id).1
step m (cancels id) = cancel_pending m id

unfoldable pub run : JobManager → List Call → JobManager
run m [] = m
run m (c ∷ cs) = run (step m c) cs

-- The calls reserve no waiter under that id.
unfoldable pub Spares : Text → List Call → Type 0
Spares id [] = Unit
Spares id (reserves other sender ∷ cs) = ((other == id) ≡ false) × Spares id cs
Spares id (c ∷ cs) = Spares id cs

update-pending :
    (m : JobManager) (id : Text) (change : LocalJob → LocalJob)
    → (update m id change).pending ≡ m.pending
unfolding update update_found
update-pending m id change = elim (Option-cases (Map.lookup id m.jobs)) [
  | inl p ↦ rw p refl
  | inr (j, p) ↦ rw p refl
]

-- No waiter comes back under the id.
run-spared :
    (id : Text) (m : JobManager) (cs : List Call)
    → Spares id cs
    → Map.lookup id m.pending ≡ none
    → Map.lookup id (run m cs).pending ≡ none
unfolding run Spares step enqueue start_inline pop pop_transferable push_back mark_running
    mark_transferred mark_finished reserve_pending resolve_pending cancel_pending
run-spared id m [] s h = h
run-spared id m (enqueues job ∷ cs) s h = run-spared id (enqueue m job) cs s h
run-spared id m (starts job at ∷ cs) s h = run-spared id _ cs s h
run-spared id m (pops ∷ cs) s h = run-spared id _ cs s h
run-spared id m (transfers requester allow ∷ cs) s h = run-spared id _ cs s h
run-spared id m (returns job ∷ cs) s h = run-spared id _ cs s h
run-spared id m (marks_running i at ∷ cs) s h =
    run-spared id _ cs s (ap (Map.lookup id) (update-pending m i _) ∙ h)
run-spared id m (marks_transferred i ∷ cs) s h =
    run-spared id _ cs s (ap (Map.lookup id) (update-pending m i _) ∙ h)
run-spared id m (marks_finished i result ∷ cs) s h =
    run-spared id _ cs s (ap (Map.lookup id) (update-pending m i _) ∙ h)
run-spared id m (reserves i sender ∷ cs) s h =
    run-spared id _ cs s.1 (Map.lookup-insert i id sender m.pending ∙ rw s.0 h)
run-spared id m (resolves i ∷ cs) s h =
    run-spared id _ cs s (Map.lookup-remove i id m.pending ∙ ground (arith, h))
run-spared id m (cancels i ∷ cs) s h =
    run-spared id _ cs s (Map.lookup-remove i id m.pending ∙ ground (arith, h))

-- A waiter that is resolved is resolved once: after any calls that reserve none under its id, resolving
-- the id again gives nothing.
pub resolve_once :
    (m : JobManager) (id : Text) (cs : List Call)
    → Spares id cs
    → (resolve_pending (run (resolve_pending m id).1 cs) id).0 ≡ none
unfolding resolve_pending
resolve_once m id cs s = run-spared id _ cs s (Map.lookup-remove id id m.pending ∙ ground arith)

count-zero :
    (jobs : List LocalJob)
    → (any is_active jobs ≡ false)
      ↔ ((count_status queued jobs ≡ 0) × (count_status running jobs ≡ 0))
unfolding count_status is_active
count-zero [] = (λ h. (refl, refl), λ h. refl)
count-zero (j ∷ js) = let k = count-zero js in (λ h. ground (arith, k.0), λ h. ground (arith, k.1))

idle_queue :
    (q : JobQueue) (jobs : List LocalJob)
    → (not (JobQueue.is_empty q) || any is_active jobs ≡ false)
      ↔ ((q ≡ []) × (count_status queued jobs ≡ 0) × (count_status running jobs ≡ 0))
unfolding JobQueue.is_empty
idle_queue [] jobs =
    let k = count-zero jobs in (λ h. let c = k.0 h in (refl, c.0, c.1), λ h. k.1 (h.1, h.2))
idle_queue (j ∷ q) jobs = (λ h. cc, λ h. cc)

-- The manager is idle exactly when its queue is empty and it counts no queued and no running job.
pub is_busy_iff :
    (m : JobManager)
    → (is_busy m ≡ false) ↔ ((m.queue ≡ []) × (count_queued m ≡ 0) × (count_running m ≡ 0))
unfolding is_busy queue_is_empty count_queued count_running
is_busy_iff m = idle_queue m.queue (Map.values m.jobs)
