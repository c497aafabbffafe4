-- ===== src/Runtime/JobManager/Transfer.antt =====
-- crates/misaka-runtime/src/job_manager.rs and queue.rs: which job work stealing hands over.
use misaka.Prelude.{
  ℕ, ◌≡◌, refl, sym, ap, ◌∙◌, inl, inr, Bool, true, false, Option, none, some, [], ◌∷◌, ◌++◌,
  nat_eq, any, Bool-cases, arith,
}
use misaka.Core.Types.{CommandAuthorization, Principal, human, sister}
use misaka.Runtime.JobQueue
use misaka.Runtime.JobQueue.{LocalJob, JobQueue}
use misaka.Runtime.JobManager.{
  JobManager, is_sister, may_transfer, job_transferable, pop_transferable,
}

-- The first job of the queue with the property, and the rest of the queue in order.
pub record IsFirst (p : LocalJob → Bool) (q : JobQueue) (job : LocalJob) (rest : JobQueue)
    : Type 0 where
  pub before : JobQueue
  pub after : JobQueue
  pub whole_queue : q ≡ before ++ job ∷ after
  pub others : rest ≡ before ++ after
  pub chosen : p job ≡ true
  pub passed : any p before ≡ false

pop_where-IsFirst :
    (p : LocalJob → Bool) (q : JobQueue) (job : LocalJob)
    → (JobQueue.pop_where p q).0 ≡ some job
    → IsFirst p q job (JobQueue.pop_where p q).1
unfolding JobQueue.pop_where
pop_where-IsFirst p [] job h = cc
pop_where-IsFirst p (j ∷ q) job h = elim (Bool-cases (p j)) [
  | inl t ↦
      let e : j ≡ job = ground (arith, t, h) in
      record {
        before = [];
        after = q;
        whole_queue = ap (λ x. x ∷ q) e;
        others = rw t refl;
        chosen = ap p (sym e) ∙ t;
        passed = refl;
      }
  | inr t ↦
      let k = pop_where-IsFirst p q job (ground (arith, t, h)) in
      record {
        before = j ∷ k.before;
        after = k.after;
        whole_queue = ap (λ x. j ∷ x) k.whole_queue;
        others = rw t (ap (λ x. j ∷ x) k.others);
        chosen = k.chosen;
        passed = rw t k.passed;
      }
]

pop_where-none :
    (p : LocalJob → Bool) (q : JobQueue)
    → (JobQueue.pop_where p q).0 ≡ none
    → (any p q ≡ false) × ((JobQueue.pop_where p q).1 ≡ q)
unfolding JobQueue.pop_where
pop_where-none p [] h = (refl, refl)
pop_where-none p (j ∷ q) h = elim (Bool-cases (p j)) [
  | inl t ↦ absurd (ground (arith, t, h))
  | inr t ↦
      let k = pop_where-none p q (ground (arith, t, h)) in (rw t k.0, rw t (ap (λ x. j ∷ x) k.1))
]

-- The rule of work stealing, as the design states it.
abbrev pub MayRun : Option CommandAuthorization → ℕ → Bool → Type 0
MayRun none requester allow_unauthenticated = allow_unauthenticated ≡ true
MayRun (some a) requester allow_unauthenticated =
    a.target ≡ some (sister (record { number = requester }))

pub target-is_sister :
    (t : Option Principal) (requester : ℕ)
    → is_sister t requester ≡ true
    → t ≡ some (sister (record { number = requester }))
unfolding is_sister
target-is_sister none requester h = cc
target-is_sister (some (human x)) requester h = cc
target-is_sister (some (sister s)) requester h =
    let e : s.number ≡ requester = ground arith in ap (λ n. some (sister (record { number = n }))) e

may_transfer-MayRun :
    (a : Option CommandAuthorization) (requester : ℕ) (allow : Bool)
    → may_transfer a requester allow ≡ true
    → MayRun a requester allow
unfolding may_transfer
may_transfer-MayRun none requester allow h = h
may_transfer-MayRun (some a) requester allow h = target-is_sister a.target requester h

-- What work stealing takes is the first job that the requester may run: a job authorized for this very
-- Sister, or one without authorization where that is allowed. The other jobs stay, in order.
pub pop_transferable-IsFirst :
    (m : JobManager) (requester : ℕ) (allow : Bool) (job : LocalJob)
    → (pop_transferable m requester allow).0 ≡ some job
    → MayRun job.authorization requester allow
      × IsFirst
          (λ j. job_transferable j requester allow)
          m.queue
          job
          (pop_transferable m requester allow).1.queue
unfolding pop_transferable
pop_transferable-IsFirst m requester allow job h =
    let k = pop_where-IsFirst (λ j. job_transferable j requester allow) m.queue job h in
    (may_transfer-MayRun job.authorization requester allow (unfold job_transferable in k.chosen), k)

-- When it takes none, no queued job is for the requester, and the queue is unchanged.
pub pop_transferable-none :
    (m : JobManager) (requester : ℕ) (allow : Bool)
    → (pop_transferable m requester allow).0 ≡ none
    → (any (λ j. job_transferable j requester allow) m.queue ≡ false)
      × ((pop_transferable m requester allow).1 ≡ m)
unfolding pop_transferable
pop_transferable-none m requester allow h =
    let k = pop_where-none (λ j. job_transferable j requester allow) m.queue h in
    (k.0, ap (λ q. record m { queue = q }) k.1)
