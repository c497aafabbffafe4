-- ===== src/Runtime/StreamTests.antt =====
-- crates/misaka-runtime/src/runtime.rs: the authorization of a stream operation, run on the
-- fixtures.
use misaka.Prelude.{◌≡◌, refl, ◌↔◌, true, false, if◌then◌else◌, some, List, [], ◌∷◌, Text, codes}
use misaka.Prelude.Result.{ok, is_ok}
use misaka.Core.Types.{Role, Permission, Principal, MembershipKind, sister, CommandAuthorization}
use misaka.Core.CommandAuthorization
use misaka.Runtime.JsonFile.{holds, missing, whole}
use misaka.Runtime.AuthorizationNonceStore
use misaka.Runtime.AuthorizationNonceStore.{record_nonce}
use misaka.Runtime.RevocationStore.{is_revoked}
use misaka.Runtime.JobManager
use misaka.Runtime.JobHandler.{SisterNode}
use misaka.Runtime.StreamAuthorization
use misaka.Runtime.StreamAuthorization.{
  is_stream_permission, check_stream_under, authorize_stream_operation,
}
use misaka.Runtime.StreamAuthorization.Allowed.{authorize_stream_operation_iff}
use misaka.Fixtures.{
  toy, network, authority, operator_identity, operator_membership, human_key, grants,
}

abbrev node : SisterNode
node = record {
  network_id = network;
  sister_id = 42;
  allow_unauthenticated_operations = false;
  authority = holds authority;
  revocations = missing;
  nonces = missing;
  jobs = JobManager.new;
  is_peer = λ _. false;
}

abbrev destination : List Text
destination = codes "destination=x" ∷ []

abbrev file_authorization : CommandAuthorization
file_authorization =
    CommandAuthorization.issue network operator_identity operator_membership Role.operator
      Permission.file_send (some (Principal.sister (record { number = 42 }))) destination 500 800
      (2 ∷ []) human_key

file_allowed :
    (authorize_stream_operation node
      (some file_authorization)
      Permission.file_send
      destination
      true
      600
      601
      whole).0
    ≡ ok tt
unfolding grants authorize_stream_operation StreamAuthorization.Texts-discrete
    StreamAuthorization.Target-discrete is_revoked record_nonce AuthorizationNonceStore.write_result
    AuthorizationNonceStore.is_used AuthorizationNonceStore.live
file_allowed = refl

authorize_stream_operation_iff_example :
    (((authorize_stream_operation node
          (some file_authorization)
          Permission.file_send
          destination
          true
          600
          601
          whole).0
        ≡ ok tt)
      ↔ (((file_authorization.permission ≡ Permission.file_send)
            × (is_stream_permission file_authorization.permission ≡ true)
            × (file_authorization.target ≡ some (sister (record { number = node.sister_id })))
            × (file_authorization.network_id ≡ node.network_id)
            × (CommandAuthorization.verify file_authorization authority 600 ≡ true)
            × (file_authorization.constraints ≡ destination)
            × (is_revoked node.revocations authority file_authorization.network_id
                  MembershipKind.human file_authorization.membership.serial
                ≡ ok false))
          × ((record_nonce node.nonces file_authorization 601 whole).0 ≡ ok tt)))
    × ((authorize_stream_operation node
          (some file_authorization)
          Permission.file_send
          destination
          true
          600
          601
          whole).1
        ≡ (if is_ok (
              check_stream_under node file_authorization Permission.file_send destination 600
                (holds authority))
            then record node { nonces = (record_nonce node.nonces file_authorization 601 whole).1 }
            else node))
authorize_stream_operation_iff_example =
    authorize_stream_operation_iff node file_authorization Permission.file_send destination 600 601
      whole authority refl
