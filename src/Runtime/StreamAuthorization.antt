-- ===== src/Runtime/StreamAuthorization.antt =====
-- crates/misaka-runtime/src/runtime.rs: the authorization of a stream operation, a file transfer, a
-- tunnel or a shell. A node is absent where a stream is served without a runtime.
pub mod Allowed
use misaka.Prelude.{
  ℕ, Text, Bool, true, false, not, ◌&&◌, ◌||◌, Option, none, some, List, [], ◌∷◌, ◌==◌, nat_eq, Eq,
  is_none_or, if◌then◌else◌, Bytes-discrete,
}
use misaka.Prelude.Result.{Result, ok, err, ◌>>=◌, ◌>>◌, reject}
use misaka.Core.Types.{
  NetworkAuthority, Permission, file_send, tunnel_open, shell_open, Principal, sister,
  MembershipKind, CommandAuthorization, network_id_eq, permission_eq, Principal-discrete,
}
use misaka.Core.CommandAuthorization
use misaka.Core.Wire.{Wire}
use misaka.Runtime.JsonFile.{JsonFile, Write, missing, holds, garbled}
use misaka.Runtime.AuthorizationNonceStore.{NonceEntry, AuthorizationNonceStoreError, record_nonce}
use misaka.Runtime.RevocationStore.{RevocationStoreError, is_revoked}
use misaka.Runtime.JobHandler.{SisterNode}

unfoldable pub Texts-discrete : Discrete (List Text)
unfolding Bytes-discrete
Texts-discrete = hlevel Bytes-discrete

instance abbrev pub texts_eq : Eq (List Text)
texts_eq = record { dec = Texts-discrete }

unfoldable pub Target-discrete : Discrete (Option Principal)
unfolding Principal-discrete
Target-discrete = hlevel Principal-discrete

instance abbrev pub target_eq : Eq (Option Principal)
target_eq = record { dec = Target-discrete }

-- std::io::ErrorKind
pub data StreamError : Type 0 where
  permission_denied other : StreamError

unfoldable pub require_stream_authorization :
    Option CommandAuthorization → Bool → Result StreamError (Unit {0})
require_stream_authorization (some a) allow = ok tt
require_stream_authorization none allow = reject (not allow) permission_denied

unfoldable pub authorization_bound_to_local : CommandAuthorization → ℕ → Bool
authorization_bound_to_local a local_id = a.target == some (sister (record { number = local_id }))

unfoldable pub is_stream_permission : Permission → Bool
is_stream_permission p = p == file_send || p == tunnel_open || p == shell_open

unfoldable pub unless_revoked : Result RevocationStoreError Bool → Result StreamError (Unit {0})
unless_revoked (ok r) = reject r permission_denied
unless_revoked (err e) = err permission_denied

module _ ⦃w : Wire⦄ where
  unfoldable pub check_stream_under :
      SisterNode
      → CommandAuthorization
      → Permission
      → List Text
      → ℕ
      → JsonFile NetworkAuthority
      → Result StreamError (Unit {0})
  unfolding authorization_bound_to_local is_stream_permission unless_revoked
  check_stream_under node a permission constraints now missing = err permission_denied
  check_stream_under node a permission constraints now garbled = err other
  check_stream_under node a permission constraints now (holds authority) =
      reject
        (not (a.permission == permission)
          || not (is_stream_permission a.permission)
          || not (authorization_bound_to_local a node.sister_id)
          || not (a.network_id == node.network_id)
          || not (CommandAuthorization.verify a authority now)
          || not (a.constraints == constraints))
        permission_denied
      >> unless_revoked (
          is_revoked node.revocations authority a.network_id MembershipKind.human
            a.membership.serial)

  unfoldable pub spend :
      SisterNode
      → Result AuthorizationNonceStoreError (Unit {0}) × JsonFile (List NonceEntry)
      → Result StreamError (Unit {0}) × SisterNode
  spend node (ok u, nonces) = (ok tt, record node { nonces = nonces })
  spend node (err e, nonces) = (err permission_denied, record node { nonces = nonces })

  unfoldable pub spend_if :
      Bool
      → SisterNode
      → CommandAuthorization
      → ℕ
      → Write (List NonceEntry)
      → Result StreamError (Unit {0})
      → Result StreamError (Unit {0}) × SisterNode
  unfolding spend
  spend_if records node a later write (err e) = (err e, node)
  spend_if false node a later write (ok u) = (ok tt, node)
  spend_if true node a later write (ok u) = spend node (record_nonce node.nonces a later write)

  -- For a node that is there. The flag says whether the operation consumes the nonce.
  unfoldable pub authorize_stream_operation :
      SisterNode
      → Option CommandAuthorization
      → Permission
      → List Text
      → Bool
      → ℕ
      → ℕ
      → Write (List NonceEntry)
      → Result StreamError (Unit {0}) × SisterNode
  unfolding require_stream_authorization spend_if check_stream_under
  authorize_stream_operation node none permission constraints records now later write =
      (require_stream_authorization none node.allow_unauthenticated_operations, node)
  authorize_stream_operation node (some a) permission constraints records now later write =
      spend_if records node a later write
        (check_stream_under node a permission constraints now node.authority)

-- Without a node: nothing to check an authorization against.
unfoldable pub authorize_detached : Option CommandAuthorization → Result StreamError (Unit {0})
unfolding require_stream_authorization
authorize_detached none = require_stream_authorization none true
authorize_detached (some a) = err permission_denied
