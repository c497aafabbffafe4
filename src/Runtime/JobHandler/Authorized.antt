-- ===== src/Runtime/JobHandler/Authorized.antt =====
-- crates/misaka-runtime/src/handler.rs: a job runs only as it was authorized.
use misaka.Prelude.{
  ℕ, ◌≡◌, refl, sym, ap, ◌∙◌, inl, inr, Bool, true, false, Option, none, some, List, nat_eq, all,
  Bool-cases, arith,
}
use misaka.Prelude.Result.{bind_ok, Result, ok, err}
use misaka.Core.Types.{
  NetworkAuthority, job_submit, MembershipKind, CommandAuthorization, sister, network_id_eq,
  permission_eq,
}
use misaka.Core.CommandAuthorization
use misaka.Core.Wire.{Wire}
use misaka.Runtime.JsonFile.{JsonFile, Write, missing, holds, garbled}
use misaka.Runtime.AuthorizationNonceStore.{NonceEntry, AuthorizationNonceStoreError, record_nonce}
use misaka.Runtime.RevocationStore.{is_revoked}
use misaka.Runtime.JobManager.{enqueue}
use misaka.Runtime.JobManager.Transfer.{target-is_sister}
use misaka.Runtime.JobHandler.{
  JobData, SisterNode, HandlerError, queued, require_side_effect_authorization, will_forward,
  expected_target, allows_command, full_command, local_job, descriptor, unrevoked, check_under,
  check_authorization, consume_nonce, spend_checked, authorize_job, dispose_job, handle_job,
}

module _ ⦃w : Wire⦄ where
  -- What a checked authorization says, for the Sister that the job is bound for.
  pub record IsChecked (node : SisterNode) (job : JobData) (a : CommandAuthorization) (now : ℕ)
      : Type 0 where
    pub authority : NetworkAuthority
    pub known_authority : node.authority ≡ holds authority
    pub submits : a.permission ≡ job_submit
    pub own_network : a.network_id ≡ node.network_id
    pub verified : CommandAuthorization.verify a authority now ≡ true
    pub bound : a.target ≡ some (sister (record { number = expected_target node job }))
    pub constrained : all (allows_command (full_command job)) a.constraints ≡ true
    pub unrevoked_member :
        is_revoked node.revocations authority a.network_id MembershipKind.human a.membership.serial
        ≡ ok false

  unrevoked-ok : (r : Result _ Bool) → unrevoked r ≡ ok tt → r ≡ ok false
  unfolding unrevoked
  unrevoked-ok (ok true) h = cc
  unrevoked-ok (ok false) h = refl
  unrevoked-ok (err e) h = cc

  IsChecked-under :
      (node : SisterNode) (job : JobData) (a : CommandAuthorization) (now : ℕ)
      (authority : NetworkAuthority)
      → node.authority ≡ holds authority
      → check_under node job a now authority ≡ ok tt
      → IsChecked node job a now
  unfolding check_under
  IsChecked-under node job a now authority p h = record {
    authority = authority;
    known_authority = p;
    submits = ground arith;
    own_network = ground arith;
    verified = ground arith;
    bound = target-is_sister a.target (expected_target node job) (ground arith);
    constrained = ground arith;
    unrevoked_member = unrevoked-ok _ (ground arith);
  }

  descriptor_ok :
      (file : JsonFile NetworkAuthority) (authority : NetworkAuthority)
      → descriptor file ≡ ok authority
      → file ≡ holds authority
  unfolding descriptor
  descriptor_ok missing authority h = cc
  descriptor_ok (holds a) authority h = cc
  descriptor_ok garbled authority h = cc

  checked :
      (node : SisterNode) (job : JobData) (a : CommandAuthorization) (now : ℕ)
      → check_authorization node job a now ≡ ok tt
      → IsChecked node job a now
  unfolding check_authorization
  checked node job a now h =
      bind_ok {m = descriptor node.authority} {f = check_under node job a now} h
        (λ authority e passed.
          IsChecked-under node job a now authority (descriptor_ok node.authority authority e)
            passed)

  -- What a queued job has: a checked authorization for this Sister whose nonce is now spent, or none
  -- where none is required.
  abbrev pub IsAdmitted :
      SisterNode
      → JobData
      → ℕ
      → ℕ
      → Write (List NonceEntry)
      → SisterNode
      → Option CommandAuthorization
      → Type 0
  IsAdmitted node job now later write next none =
      (node.allow_unauthenticated_operations ≡ true) × (next.nonces ≡ node.nonces)
  IsAdmitted node job now later write next (some a) =
      IsChecked node job a now
      × (a.target ≡ some (sister (record { number = node.sister_id })))
      × ((record_nonce node.nonces a later write).0 ≡ ok tt)
      × (next.nonces ≡ (record_nonce node.nonces a later write).1)

  same_nonces :
      (node : SisterNode) (job : JobData) (now later : ℕ) (write : Write (List NonceEntry))
      (n t : SisterNode) (o : Option CommandAuthorization)
      → n.nonces ≡ t.nonces
      → IsAdmitted node job now later write n o
      → IsAdmitted node job now later write t o
  same_nonces node job now later write n t none e h = (h.0, sym e ∙ h.1)
  same_nonces node job now later write n t (some a) e h = (h.0, h.1, h.2, sym e ∙ h.3)

  consumed :
      (r : Result AuthorizationNonceStoreError (Unit {0}) × JsonFile (List NonceEntry))
      (node : SisterNode)
      → (consume_nonce r node).0 ≡ ok tt
      → (r.0 ≡ ok tt) × ((consume_nonce r node).1 ≡ record node { nonces = r.1 })
  unfolding consume_nonce
  consumed (ok u, nonces) node h = (refl, refl)
  consumed (err e, nonces) node h = cc

  disposed :
      (r : Result HandlerError (Unit {0}) × SisterNode) (job : JobData) (is_sent : Bool)
      → (dispose_job r job is_sent).0 ≡ ok queued
      → (r.0 ≡ ok tt)
        × (will_forward r.1 job ≡ false)
        × ((dispose_job r job is_sent).1 ≡ record r.1 { jobs = enqueue r.1.jobs (local_job job) })
  unfolding dispose_job
  disposed (err e, node) job is_sent h = cc
  disposed (ok u, node) job is_sent h = elim (Bool-cases (will_forward node job)) [
    | inl p ↦ absurd (ground (arith, p, h))
    | inr p ↦ (refl, p, rw p refl)
  ]

  spent :
      (node : SisterNode) (job : JobData) (a : CommandAuthorization) (now later : ℕ)
      (write : Write (List NonceEntry)) (c : Result HandlerError (Unit {0}))
      → check_authorization node job a now ≡ c
      → (spend_checked node job a later write c).0 ≡ ok tt
      → will_forward (spend_checked node job a later write c).1 job ≡ false
      → IsAdmitted node job now later write (spend_checked node job a later write c).1 (some a)
        × ((spend_checked node job a later write c).1.jobs ≡ node.jobs)
  unfolding spend_checked
  spent node job a now later write (err e) q h f = cc
  spent node job a now later write (ok u) q h f = elim (Bool-cases (will_forward node job)) [
    | inl p ↦ absurd (ground (arith, p, f))
    | inr p ↦
        let k = consumed (record_nonce node.nonces a later write) node (ground (arith, p, h)) in
        let c = checked node job a now q in
        let own : expected_target node job ≡ node.sister_id = unfold expected_target in rw p refl in
        rw p (
          (
            c,
            c.bound ∙ ap (λ n. some (sister (record { number = n }))) own,
            k.0,
            ap (λ n. n.nonces) k.1,
          ),
          ap (λ n. n.jobs) k.1,
        )
  ]

  admitted :
      (node : SisterNode) (job : JobData) (o : Option CommandAuthorization) (now later : ℕ)
      (write : Write (List NonceEntry))
      → (authorize_job node job o now later write).0 ≡ ok tt
      → will_forward (authorize_job node job o now later write).1 job ≡ false
      → IsAdmitted node job now later write (authorize_job node job o now later write).1 o
        × ((authorize_job node job o now later write).1.jobs ≡ node.jobs)
  unfolding authorize_job require_side_effect_authorization
  admitted node job none now later write h f = ((ground arith, refl), refl)
  admitted node job (some a) now later write h f =
      spent node job a now later write (check_authorization node job a now) refl h f

  -- A job is queued here only when its authorization was checked against the local authority, is bound to
  -- this very Sister, allows the command, is of a member that is not revoked, and spent its nonce; or
  -- when it has none and none is required. Then the queue gains this job.
  pub handle_job-IsAdmitted :
      (node : SisterNode) (job : JobData) (now later : ℕ) (write : Write (List NonceEntry))
      (is_sent : Bool)
      → (handle_job node job now later write is_sent).0 ≡ ok queued
      → IsAdmitted node job now later write
          (handle_job node job now later write is_sent).1
          job.authorization
        × ((handle_job node job now later write is_sent).1.jobs ≡ enqueue node.jobs (local_job job))
  unfolding handle_job
  handle_job-IsAdmitted node job now later write is_sent h =
      let d = disposed (authorize_job node job job.authorization now later write) job is_sent h in
      let k = admitted node job job.authorization now later write d.0 d.1 in
      (
        same_nonces node job now later write
            (authorize_job node job job.authorization now later write).1
            (handle_job node job now later write is_sent).1 job.authorization
            (sym (ap (λ n. n.nonces) d.2)) k.0,
        ap (λ n. n.jobs) d.2 ∙ ap (λ j. enqueue j (local_job job)) k.1,
      )
