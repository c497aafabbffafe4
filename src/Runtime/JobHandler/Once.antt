-- ===== src/Runtime/JobHandler/Once.antt =====
-- crates/misaka-runtime/src/handler.rs: an authorization runs one job.
use misaka.Prelude.{ℕ, ◌≤◌, ◌≡◌, ◌≢◌, ap, ◌∙◌, subst, Bool, some, List, nat_eq, arith}
use misaka.Prelude.Result.{ok, is_ok}
use misaka.Core.Types.{CommandAuthorization, network_id_eq, permission_eq}
use misaka.Core.Wire.{Wire}
use misaka.Runtime.JsonFile.{Write}
use misaka.Runtime.AuthorizationNonceStore.{NonceEntry, record_nonce}
use misaka.Runtime.AuthorizationNonceStore.Replay
use misaka.Runtime.AuthorizationNonceStore.Replay.{replayed_command}
use misaka.Runtime.JobHandler.{JobData, SisterNode, queued, handle_job}
use misaka.Runtime.JobHandler.Authorized.{IsAdmitted, handle_job-IsAdmitted}

-- An authorization runs one job: once a Sister has queued a job with it, she queues no job whose
-- authorization has that network and nonce, up to the authorization's expiry, whatever nonces she records
-- in between, when a write that fails leaves the old file, the new one or one that does not read.
pub queued_once :
    ⦃w : Wire⦄ (node next : SisterNode) (job again : JobData) (a b : CommandAuthorization)
    (now later now' later' : ℕ) (write write' : Write (List NonceEntry)) (is_sent is_sent' : Bool)
    (between : List Replay.Call)
    → job.authorization ≡ some a
    → (handle_job node job now later write is_sent).0 ≡ ok queued
    → Replay.AllSafe a.expires_at (handle_job node job now later write is_sent).1.nonces between
    → next.nonces ≡ Replay.run (handle_job node job now later write is_sent).1.nonces between
    → again.authorization ≡ some b
    → b.network_id ≡ a.network_id
    → b.nonce ≡ a.nonce
    → later' ≤ a.expires_at
    → (handle_job next again now' later' write' is_sent').0 ≢ ok queued
queued_once node next job again a b now later now' later' write write' is_sent is_sent' between p h
      s e q n c l k =
    let done = (handle_job node job now later write is_sent).1 in
    let redone = (handle_job next again now' later' write' is_sent').1 in
    let first =
      subst (IsAdmitted node job now later write done) p
        (handle_job-IsAdmitted node job now later write is_sent h).0 in
    let second =
      subst (IsAdmitted next again now' later' write' redone) q
        (handle_job-IsAdmitted next again now' later' write' is_sent' k).0 in
    let refused =
      replayed_command node.nonces a b later later' write write' between first.2
        (subst (λ f. Replay.AllSafe a.expires_at f between) first.3 s) n c l in
    let same = e ∙ ap (λ f. Replay.run f between) first.3 in
    let refused_next = ap (λ f. is_ok (record_nonce f b later' write').0) same ∙ refused in
    ground (arith, refused_next, second.2)
