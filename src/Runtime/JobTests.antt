-- ===== src/Runtime/JobTests.antt =====
-- crates/misaka-runtime: the theorems on jobs and their authorization at concrete states.
use misaka.Prelude.{
  ℕ, ◌≤◌, ◌≡◌, ◌≢◌, refl, ◌↔◌, Text, Bool, true, false, Option, some, none, List, [], ◌∷◌, ◌++◌,
  codes, All, arith, ℕ_discrete, Bytes-discrete,
}
use misaka.Prelude.Result.{ok, is_ok}
use misaka.Core.Types.{RevocationRecord, MembershipKind}
use misaka.Core.RevocationRecord
use misaka.Runtime.JsonFile.{holds, missing, whole}
use misaka.Runtime.AuthorizationNonceStore
use misaka.Runtime.AuthorizationNonceStore.{record_nonce}
use misaka.Runtime.AuthorizationNonceStore.Replay
use misaka.Runtime.AuthorizationNonceStore.Replay.{replayed_command}
use misaka.Runtime.RevocationStore
use misaka.Runtime.RevocationStore.{append, is_revoked}
use misaka.Runtime.RevocationStore.Permanent
use misaka.Runtime.RevocationStore.Permanent.{revoked_forever}
use misaka.Runtime.JobQueue
use misaka.Runtime.JobQueue.{LocalJob, new_job}
use misaka.Runtime.JobManager
use misaka.Runtime.JobManager.{
  JobManager, enqueue, pop_transferable, job_transferable, resolve_pending, reserve_pending,
  is_busy, count_queued, count_running,
}
use misaka.Runtime.JobManager.Transfer.{IsFirst, MayRun, pop_transferable-IsFirst}
use misaka.Runtime.JobManager.Life.{run, enqueues, pops, Spares, resolve_once}
use misaka.Runtime.JobManager.Known.{IsKnown, ReturnsKnown, run-IsKnown}
use misaka.Runtime.JobHandler
use misaka.Runtime.JobHandler.{JobData, SisterNode, queued, handle_job, local_job}
use misaka.Runtime.JobHandler.Authorized.{IsAdmitted, handle_job-IsAdmitted}
use misaka.Runtime.JobHandler.Once.{queued_once}
use misaka.Fixtures.{contracts, grants, toy, network, authority, authority_key, authorization}

-- A job that only Sister 42 may take, and one without authorization.
abbrev bound_job : LocalJob
bound_job = record (new_job (1 ∷ []) (codes "ls")) { authorization = some authorization }

abbrev free_job : LocalJob
free_job = new_job (2 ∷ []) (codes "ls")

abbrev manager : JobManager
manager = enqueue (enqueue JobManager.new bound_job) free_job

taken : (pop_transferable manager 7 true).0 ≡ some free_job
unfolding grants pop_transferable JobQueue.pop_where job_transferable enqueue JobManager.new
    JobQueue.push new_job
taken = refl

pop_transferable-IsFirst_example :
    MayRun free_job.authorization 7 true
    × IsFirst
        (λ j. job_transferable j 7 true)
        manager.queue
        free_job
        (pop_transferable manager 7 true).1.queue
pop_transferable-IsFirst_example = pop_transferable-IsFirst manager 7 true free_job taken

none_taken : (pop_transferable manager 7 false).0 ≡ none
unfolding grants pop_transferable JobQueue.pop_where job_transferable enqueue JobManager.new
    JobQueue.push new_job
none_taken = refl

resolve_once_example :
    (resolve_pending
      (run (resolve_pending (reserve_pending manager (1 ∷ []) 5) (1 ∷ [])).1 (pops ∷ []))
      (1 ∷ [])).0
    ≡ none
resolve_once_example =
    resolve_once (reserve_pending manager (1 ∷ []) 5) (1 ∷ []) (pops ∷ []) (unfold Spares in tt)

none_queued : All (IsKnown JobManager.new.jobs) JobManager.new.queue
unfolding JobManager.new
none_queued = tt

run-IsKnown_example :
    All
      (IsKnown (run JobManager.new (enqueues bound_job ∷ pops ∷ [])).jobs)
      (run JobManager.new (enqueues bound_job ∷ pops ∷ [])).queue
run-IsKnown_example =
    run-IsKnown JobManager.new (enqueues bound_job ∷ pops ∷ []) none_queued
      (unfold ReturnsKnown in tt)

first_use : (record_nonce missing authorization 600 whole).0 ≡ ok tt
unfolding grants record_nonce AuthorizationNonceStore.write_result AuthorizationNonceStore.is_used
    AuthorizationNonceStore.live
first_use = refl

replayed_command_example :
    is_ok
      (record_nonce
        (Replay.run (record_nonce missing authorization 600 whole).1 [])
        authorization
        700
        whole).0
    ≡ false
replayed_command_example =
    replayed_command missing authorization authorization 600 700 whole whole [] first_use
      (unfold Replay.AllSafe in tt) refl refl
      (unfold misaka.Core.CommandAuthorization.issue in omega arith)

abbrev revocation : RevocationRecord
revocation =
    RevocationRecord.issue authority authority_key MembershipKind.human 3 550 (codes "left")

appended : (append missing authority revocation whole).0 ≡ ok tt
unfolding contracts append RevocationStore.save RevocationStore.is_listed RevocationRecord.issue
    RevocationRecord.verify RevocationRecord.signing_bytes
appended = refl

revoked_forever_example :
    is_revoked
      (Permanent.run (append missing authority revocation whole).1 [])
      authority
      revocation.network_id
      revocation.membership_kind
      revocation.membership_serial
    ≢ ok false
revoked_forever_example =
    revoked_forever missing authority authority revocation whole [] appended
      (unfold Permanent.AllSafe in tt)

abbrev node : SisterNode
node = record {
  network_id = network;
  sister_id = 42;
  allow_unauthenticated_operations = false;
  authority = holds authority;
  revocations = missing;
  nonces = missing;
  jobs = JobManager.new;
  is_peer = λ _. false;
}

abbrev job_data : JobData
job_data = record {
  id = 1 ∷ [];
  creator = 7;
  executor = 42;
  creator_addr = [];
  command = codes "ls";
  arguments = [];
  created_at = 590;
  authorization = some authorization;
}

job_queued : (handle_job node job_data 600 601 whole true).0 ≡ ok queued
unfolding grants handle_job JobHandler.dispose_job JobHandler.spend_checked
    JobHandler.check_authorization JobHandler.consume_nonce is_revoked record_nonce
    AuthorizationNonceStore.write_result AuthorizationNonceStore.is_used
    AuthorizationNonceStore.live JobManager.is_sister misaka.Prelude.strip_prefix
job_queued = refl

handle_job-IsAdmitted_example :
    IsAdmitted node job_data 600 601 whole
      (handle_job node job_data 600 601 whole true).1
      job_data.authorization
    × ((handle_job node job_data 600 601 whole true).1.jobs
        ≡ enqueue node.jobs (local_job job_data))
handle_job-IsAdmitted_example = handle_job-IsAdmitted node job_data 600 601 whole true job_queued

queued_once_example :
    (handle_job
      (record node {
        nonces = Replay.run (handle_job node job_data 600 601 whole true).1.nonces [];
      })
      job_data
      700
      700
      whole
      true).0
    ≢ ok queued
queued_once_example =
    queued_once node
      (record node {
        nonces = Replay.run (handle_job node job_data 600 601 whole true).1.nonces [];
      })
      job_data job_data authorization authorization 600 601 700 700 whole whole true true [] refl
      job_queued (unfold Replay.AllSafe in tt) refl refl refl refl
      (unfold misaka.Core.CommandAuthorization.issue in omega arith)

-- A node with queued jobs, which knows no peer.
abbrev loaded : SisterNode
loaded = record node { jobs = manager; allow_unauthenticated_operations = true }
