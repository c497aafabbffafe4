-- ===== src/Runtime/JobHandler.antt =====
-- crates/misaka-runtime/src/handler.rs: the Job, JobResponse and JobRequest branches of
-- dispatch_envelope, on deserialized payloads. The clock, what a write does and whether a send arrives
-- are arguments.
pub mod Authorized
pub mod Once
pub mod Offer
use misaka.Prelude.{
  ℕ, Text, Bool, true, false, not, ◌&&◌, ◌||◌, Option, none, some, List, [], ◌∷◌, ◌++◌, ◌==◌,
  nat_eq, bytes_eq, codes, if◌then◌else◌, all, strip_prefix,
}
use misaka.Prelude.Result.{Result, ok, err, ◌>>=◌, ◌>>◌, reject}
use misaka.Core.Types.{
  NetworkId, NetworkAuthority, Permission, job_submit, MembershipKind, CommandAuthorization,
  RevocationRecord, network_id_eq, permission_eq,
}
use misaka.Core.Job.{JobResultData}
use misaka.Core.CommandAuthorization
use misaka.Core.Wire.{Wire}
use misaka.Runtime.JsonFile.{JsonFile, Write, missing, holds, garbled}
use misaka.Runtime.AuthorizationNonceStore.{NonceEntry, AuthorizationNonceStoreError, record_nonce}
use misaka.Runtime.RevocationStore.{RevocationStoreError, is_revoked}
use misaka.Runtime.JobQueue.{LocalJob, new_job}
use misaka.Runtime.JobManager.{
  JobManager, is_sister, enqueue, pop_transferable, push_back, mark_transferred, resolve_pending,
}

pub record JobData : Type 0 where
  pub id : Text
  pub creator : ℕ
  pub executor : ℕ
  pub creator_addr : Text
  pub command : Text
  pub arguments : List Text
  pub created_at : ℕ
  pub authorization : Option CommandAuthorization

-- What the branches use of SisterNode and of the files in its directory.
pub record SisterNode : Type 0 where
  pub network_id : NetworkId
  pub sister_id : ℕ
  pub allow_unauthenticated_operations : Bool
  pub authority : JsonFile NetworkAuthority
  pub revocations : JsonFile (List RevocationRecord)
  pub nonces : JsonFile (List NonceEntry)
  pub jobs : JobManager
  pub is_peer : ℕ → Bool

pub data HandlerError : Type 0 where
  authorization_required no_authority unreadable_authority invalid_authorization revoked
        send_failed :
      HandlerError
  revocation : RevocationStoreError → HandlerError
  nonce_refused : AuthorizationNonceStoreError → HandlerError

-- [T]::join(" ")
unfoldable pub join_words : List Text → Text
join_words [] = []
join_words (a ∷ []) = a
join_words (a ∷ b ∷ rest) = a ++ (codes " " ++ join_words (b ∷ rest))

unfoldable pub full_command_of : Text → List Text → Text
unfolding join_words
full_command_of command [] = command
full_command_of command (a ∷ rest) = command ++ (codes " " ++ join_words (a ∷ rest))

unfoldable pub full_command : JobData → Text
unfolding full_command_of
full_command job = full_command_of job.command job.arguments

unfoldable pub require_side_effect_authorization :
    Option CommandAuthorization → Bool → Result HandlerError (Unit {0})
require_side_effect_authorization (some a) allow = ok tt
require_side_effect_authorization none allow = reject (not allow) authorization_required

unfoldable pub will_forward : SisterNode → JobData → Bool
will_forward node job =
    not (job.executor == 0) && not (job.executor == node.sister_id) && node.is_peer job.executor

unfoldable pub expected_target : SisterNode → JobData → ℕ
unfolding will_forward
expected_target node job = if will_forward node job then job.executor else node.sister_id

-- "command=" is all that a constraint can say.
unfoldable pub allows_command : Text → Text → Bool
allows_command command constraint = elim (strip_prefix (codes "command=") constraint) [
  | none ↦ false
  | some c ↦ c == command
]

unfoldable pub local_job : JobData → LocalJob
unfolding full_command
local_job job = record (new_job job.id (full_command job)) {
  creator = job.creator;
  creator_addr = some job.creator_addr;
  authorization = job.authorization;
}

unfoldable pub descriptor : JsonFile NetworkAuthority → Result HandlerError NetworkAuthority
descriptor missing = err no_authority
descriptor (holds authority) = ok authority
descriptor garbled = err unreadable_authority

unfoldable pub unrevoked : Result RevocationStoreError Bool → Result HandlerError (Unit {0})
unrevoked (ok r) = reject r revoked
unrevoked (err e) = err (revocation e)

-- How a job goes on.
pub data Disposal : Type 0 where
  queued forwarded : Disposal

module _ ⦃w : Wire⦄ where
  -- The checks against the local authority descriptor, which consume nothing.
  unfoldable pub check_under :
      SisterNode
      → JobData
      → CommandAuthorization
      → ℕ
      → NetworkAuthority
      → Result HandlerError (Unit {0})
  unfolding unrevoked allows_command expected_target full_command
  check_under node job a now authority =
      reject
        (not (a.permission == job_submit)
          || not (a.network_id == node.network_id)
          || not (CommandAuthorization.verify a authority now)
          || not (is_sister a.target (expected_target node job))
          || not (all (allows_command (full_command job)) a.constraints))
        invalid_authorization
      >> unrevoked (
          is_revoked node.revocations authority a.network_id MembershipKind.human
            a.membership.serial)

  unfoldable pub check_authorization :
      SisterNode → JobData → CommandAuthorization → ℕ → Result HandlerError (Unit {0})
  unfolding descriptor check_under
  check_authorization node job a now = descriptor node.authority >>= check_under node job a now

  -- The destination's nonce is consumed here.
  unfoldable pub consume_nonce :
      Result AuthorizationNonceStoreError (Unit {0}) × JsonFile (List NonceEntry)
      → SisterNode
      → Result HandlerError (Unit {0}) × SisterNode
  consume_nonce (ok u, nonces) node = (ok tt, record node { nonces = nonces })
  consume_nonce (err e, nonces) node = (err (nonce_refused e), record node { nonces = nonces })

  unfoldable pub spend_checked :
      SisterNode
      → JobData
      → CommandAuthorization
      → ℕ
      → Write (List NonceEntry)
      → Result HandlerError (Unit {0})
      → Result HandlerError (Unit {0}) × SisterNode
  unfolding consume_nonce will_forward
  spend_checked node job a later write (err e) = (err e, node)
  spend_checked node job a later write (ok u) =
      if will_forward node job
      then (ok tt, node)
      else consume_nonce (record_nonce node.nonces a later write) node

  unfoldable pub authorize_job :
      SisterNode
      → JobData
      → Option CommandAuthorization
      → ℕ
      → ℕ
      → Write (List NonceEntry)
      → Result HandlerError (Unit {0}) × SisterNode
  unfolding require_side_effect_authorization spend_checked check_authorization
  authorize_job node job none now later write =
      (require_side_effect_authorization none node.allow_unauthenticated_operations, node)
  authorize_job node job (some a) now later write =
      spend_checked node job a later write (check_authorization node job a now)

  unfoldable pub dispose_job :
      Result HandlerError (Unit {0}) × SisterNode
      → JobData
      → Bool
      → Result HandlerError Disposal × SisterNode
  unfolding local_job will_forward
  dispose_job (err e, node) job is_sent = (err e, node)
  dispose_job (ok u, node) job is_sent =
      if will_forward node job
      then (if is_sent then (ok forwarded, node) else (err send_failed, node))
      else (ok queued, record node { jobs = enqueue node.jobs (local_job job) })

  -- MessageType::Job
  unfoldable pub handle_job :
      SisterNode
      → JobData
      → ℕ
      → ℕ
      → Write (List NonceEntry)
      → Bool
      → Result HandlerError Disposal × SisterNode
  unfolding authorize_job dispose_job
  handle_job node job now later write is_sent =
      dispose_job (authorize_job node job job.authorization now later write) job is_sent

-- MessageType::JobResponse: the sender to wake, if any
unfoldable pub handle_job_response : SisterNode → JobResultData → Option ℕ × SisterNode
handle_job_response node result =
    let (sender, jobs) = resolve_pending node.jobs result.job_id in
    if result.creator == node.sister_id then (sender, record node { jobs = jobs }) else (none, node)

unfoldable pub offer : SisterNode → ℕ → Bool → LocalJob → JobManager → SisterNode
offer node requester is_sent job rest =
    if node.is_peer requester && is_sent
    then record node { jobs = mark_transferred rest job.id }
    else record node { jobs = push_back rest job }

unfoldable pub offered : SisterNode → ℕ → Bool → Option LocalJob × JobManager → SisterNode
unfolding offer
offered node requester is_sent (none, rest) = record node { jobs = rest }
offered node requester is_sent (some job, rest) = offer node requester is_sent job rest

-- MessageType::JobRequest
unfoldable pub handle_job_request : SisterNode → ℕ → Bool → SisterNode
unfolding offered
handle_job_request node requester is_sent =
    offered node requester is_sent
      (pop_transferable node.jobs requester node.allow_unauthenticated_operations)
