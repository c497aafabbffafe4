-- ===== src/Runtime/StreamAuthorization/Allowed.antt =====
-- crates/misaka-runtime/src/runtime.rs: when a stream operation is allowed.
use misaka.Prelude.{
  ℕ, ◌≡◌, refl, sym, ap, ◌∙◌, ◌↔◌, Text, Bool, true, false, some, List, nat_eq, if◌then◌else◌,
  arith,
}
use misaka.Prelude.Result.{Result, ok, err, is_ok}
use misaka.Core.Types.{
  NetworkAuthority, Permission, sister, MembershipKind, CommandAuthorization, network_id_eq,
  permission_eq,
}
use misaka.Core.CommandAuthorization
use misaka.Core.Wire.{Wire}
use misaka.Runtime.JsonFile.{JsonFile, Write, holds}
use misaka.Runtime.AuthorizationNonceStore.{NonceEntry, AuthorizationNonceStoreError, record_nonce}
use misaka.Runtime.RevocationStore.{RevocationStoreError, is_revoked}
use misaka.Runtime.JobHandler.{SisterNode}
use misaka.Runtime.StreamAuthorization.{
  StreamError, texts_eq, target_eq, authorization_bound_to_local, is_stream_permission,
  unless_revoked, check_stream_under, spend, spend_if, authorize_stream_operation,
}

unless_revoked_iff :
    (r : Result RevocationStoreError Bool) → (unless_revoked r ≡ ok tt) ↔ (r ≡ ok false)
unfolding unless_revoked
unless_revoked_iff (ok true) = (λ h. cc, λ h. cc)
unless_revoked_iff (ok false) = (λ h. refl, λ h. refl)
unless_revoked_iff (err e) = (λ h. cc, λ h. cc)

module _ ⦃w : Wire⦄ where
  check_stream_under_iff :
      (node : SisterNode) (a : CommandAuthorization) (permission : Permission)
      (constraints : List Text) (now : ℕ) (authority : NetworkAuthority)
      → (check_stream_under node a permission constraints now (holds authority) ≡ ok tt) ↔ (
          (a.permission ≡ permission)
          × (is_stream_permission a.permission ≡ true)
          × (a.target ≡ some (sister (record { number = node.sister_id })))
          × (a.network_id ≡ node.network_id)
          × (CommandAuthorization.verify a authority now ≡ true)
          × (a.constraints ≡ constraints)
          × (is_revoked node.revocations authority a.network_id MembershipKind.human
                a.membership.serial
              ≡ ok false))
  unfolding check_stream_under authorization_bound_to_local
  check_stream_under_iff node a permission constraints now authority =
      let revocation = unless_revoked_iff (
        is_revoked node.revocations authority a.network_id MembershipKind.human
          a.membership.serial) in
      (λ h. ground (arith, h, revocation), λ h. ground (arith, h, revocation))

module _ ⦃w : Wire⦄ where
  spend-ok :
      (node : SisterNode)
      (r : Result AuthorizationNonceStoreError (Unit {0}) × JsonFile (List NonceEntry))
      → ((spend node r).0 ≡ ok tt) ↔ (r.0 ≡ ok tt)
  unfolding spend
  spend-ok node (ok u, nonces) = (λ h. refl, λ h. refl)
  spend-ok node (err e, nonces) = (λ h. cc, λ h. cc)

  spend_if-ok :
      (node : SisterNode) (a : CommandAuthorization) (later : ℕ) (write : Write (List NonceEntry))
      (checked : Result StreamError (Unit {0}))
      → ((spend_if true node a later write checked).0 ≡ ok tt)
        ↔ ((checked ≡ ok tt) × ((record_nonce node.nonces a later write).0 ≡ ok tt))
  unfolding spend_if
  spend_if-ok node a later write (ok u) =
      let spent = spend-ok node (record_nonce node.nonces a later write) in
      (λ h. (refl, spent.0 h), λ h. spent.1 (h.1))
  spend_if-ok node a later write (err e) = (λ h. cc, λ h. cc)

  spend_node :
      (node : SisterNode)
      (r : Result AuthorizationNonceStoreError (Unit {0}) × JsonFile (List NonceEntry))
      → (spend node r).1 ≡ record node { nonces = r.1 }
  unfolding spend
  spend_node node (ok u, nonces) = refl
  spend_node node (err e, nonces) = refl

  spend_if_node :
      (node : SisterNode) (a : CommandAuthorization) (later : ℕ) (write : Write (List NonceEntry))
      (checked : Result StreamError (Unit {0}))
      → (spend_if true node a later write checked).1 ≡ (
          if is_ok checked
          then record node { nonces = (record_nonce node.nonces a later write).1 }
          else node)
  unfolding spend_if
  spend_if_node node a later write (ok u) = spend_node node (record_nonce node.nonces a later write)
  spend_if_node node a later write (err e) = refl

  -- A Sister with an authority allows an authorized operation that consumes its nonce exactly when
  -- the authorization is for this permission, which is one of streams; names this very Sister and
  -- network; verifies; has the constraints of the operation; its membership is not revoked; and its
  -- nonce is recorded as used. An authorization that fails one of the checks leaves the Sister as she
  -- was; one that passes them leaves her with the nonce file that the recording leaves, and with
  -- nothing else changed.
  pub authorize_stream_operation_iff :
      (node : SisterNode) (a : CommandAuthorization) (permission : Permission)
      (constraints : List Text) (now later : ℕ) (write : Write (List NonceEntry))
      (authority : NetworkAuthority)
      → node.authority ≡ holds authority
      → (((authorize_stream_operation node (some a) permission constraints true now later write).0
            ≡ ok tt)
          ↔ (((a.permission ≡ permission)
                × (is_stream_permission a.permission ≡ true)
                × (a.target ≡ some (sister (record { number = node.sister_id })))
                × (a.network_id ≡ node.network_id)
                × (CommandAuthorization.verify a authority now ≡ true)
                × (a.constraints ≡ constraints)
                × (is_revoked node.revocations authority a.network_id MembershipKind.human
                      a.membership.serial
                    ≡ ok false))
              × ((record_nonce node.nonces a later write).0 ≡ ok tt)))
        × ((authorize_stream_operation node (some a) permission constraints true now later write).1
            ≡ (if is_ok (check_stream_under node a permission constraints now (holds authority))
                then record node { nonces = (record_nonce node.nonces a later write).1 }
                else node))
  unfolding authorize_stream_operation
  authorize_stream_operation_iff node a permission constraints now later write authority known =
      let checked = check_stream_under_iff node a permission constraints now authority in
      let spent =
        spend_if-ok node a later write
          (check_stream_under node a permission constraints now node.authority) in
      let under = ap (check_stream_under node a permission constraints now) known in
      (
        (
          λ h. (checked.0 (sym under ∙ (spent.0 h).0), (spent.0 h).1),
          λ h. spent.1 (under ∙ checked.1 (h.0), h.1),
        ),
        spend_if_node node a later write
              (check_stream_under node a permission constraints now node.authority)
            ∙ ap
                (λ c.
                  if is_ok c
                  then record node { nonces = (record_nonce node.nonces a later write).1 }
                  else node)
                under,
      )
