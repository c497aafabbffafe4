-- ===== src/Runtime/AuthenticatedSession.antt =====
-- crates/misaka-runtime/src/authenticated_session.rs: the handshake of an authenticated Iroh stream.
-- This module has the validations, Handshake the two ends. Each end's bytes, its clock readings and its random nonce are arguments.
pub mod Handshake
pub mod Established
pub mod Agreement
pub mod Vouched
use misaka.Prelude.{
  ℕ, Bytes, Text, Bool, true, false, not, ◌||◌, Option, none, some, List, ◌==◌, nat_eq, bytes_eq,
  codes, strip_prefix, is_some_and,
}
use misaka.Prelude.Result.{Result, ok, err, ◌>>=◌, ◌>>◌, reject}
use misaka.Core.Types.{
  NetworkId, SisterId, SisterPublicKey, SisterKeyPair, NetworkAuthority, MembershipCertificate,
  MembershipKind, RevocationRecord, TransportBinding, IrohEndpointId, AuthenticatedClientHello,
  AuthenticatedServerHello, network_id_eq, sister_id_eq, sister_public_key_eq, iroh_endpoint_id_eq,
}
use misaka.Core.AuthenticatedClientHello
use misaka.Core.AuthenticatedClientHello.{auth_session_protocol_version}
use misaka.Core.AuthenticatedServerHello
use misaka.Core.MembershipCertificate
use misaka.Core.TransportBinding
use misaka.Core.Keys.{sister_public_key}
use misaka.Core.Wire.{Wire}
use misaka.Runtime.JsonFile.{JsonFile}
use misaka.Runtime.RevocationStore.{RevocationStoreError, is_revoked}
use misaka.Runtime.Frame.{FrameError, too_large, Codec}

-- MAX_AUTH_FRAME_LENGTH
abbrev pub max_auth_frame_length : ℕ
max_auth_frame_length = 1048576

-- `revocations` is what stands in the revocation directory, if one is set.
pub record AuthenticatedSessionConfig : Type 0 where
  pub network_id : NetworkId
  pub sister_id : ℕ
  pub sister_key : SisterKeyPair
  pub authority : NetworkAuthority
  pub membership_certificate : MembershipCertificate
  pub transport_binding : TransportBinding
  pub revocations : Option (JsonFile (List RevocationRecord))

pub data AuthenticatedSessionError : Type 0 where
  io codec rejected : AuthenticatedSessionError

-- The identity that the handshake establishes.
pub record AuthenticatedPeer : Type 0 where
  pub sister_id : SisterId
  pub sister_public_key : SisterPublicKey
  pub membership_serial : ℕ

-- The third-party code of a session: bincode at the two messages, and iroh's EndpointId::from_str with
-- as_bytes.
pub record SessionWire : Type 0 where
  pub client_codec : Codec AuthenticatedClientHello
  pub server_codec : Codec AuthenticatedServerHello
  pub parse_endpoint_id : Text → Option Bytes

-- impl From<AuthenticatedSessionError>, on the errors of a frame
abbrev pub from_frame {ℓ} : {A : Type ℓ} → Result FrameError A → Result AuthenticatedSessionError A
from_frame (ok a) = ok a
from_frame (err FrameError.io) = err AuthenticatedSessionError.io
from_frame (err FrameError.codec) = err AuthenticatedSessionError.codec
from_frame (err too_large) = err rejected

unfoldable pub from_revocation :
    Result RevocationStoreError Bool → Result AuthenticatedSessionError Bool
from_revocation (ok b) = ok b
from_revocation (err e) = err rejected

module _ ⦃w : Wire⦄ where
  unfoldable pub membership_revoked :
      Option (JsonFile (List RevocationRecord))
      → NetworkAuthority
      → NetworkId
      → MembershipKind
      → ℕ
      → Result AuthenticatedSessionError Bool
  unfolding from_revocation
  membership_revoked none authority network kind serial = ok false
  membership_revoked (some file) authority network kind serial =
      from_revocation (is_revoked file authority network kind serial)

  unfoldable pub membership_is_revoked :
      AuthenticatedSessionConfig → MembershipKind → ℕ → Result AuthenticatedSessionError Bool
  unfolding membership_revoked
  membership_is_revoked local kind serial =
      membership_revoked local.revocations local.authority local.network_id kind serial

  unfoldable pub validate_local :
      AuthenticatedSessionConfig → ℕ → Result AuthenticatedSessionError (Unit {0})
  validate_local local now =
      reject
        (not (local.network_id == local.authority.network_id)
          || not (local.membership_certificate.network_id == local.network_id)
          || not (local.membership_certificate.sister_id.number == local.sister_id)
          || not
              (local.membership_certificate.sister_public_key == sister_public_key local.sister_key)
          || not (local.transport_binding.network_id == local.network_id)
          || not (local.transport_binding.sister_id.number == local.sister_id)
          || not (local.transport_binding.sister_public_key == sister_public_key local.sister_key)
          || not (MembershipCertificate.verify local.membership_certificate local.authority)
          || not (MembershipCertificate.is_valid_at local.membership_certificate now)
          || not (TransportBinding.verify local.transport_binding))
        rejected
      >> (membership_is_revoked local MembershipKind.sister local.membership_certificate.serial
          >>= λ revoked. reject revoked rejected)

module _ ⦃w : Wire⦄ ⦃net : SessionWire⦄ where
  unfoldable pub matches_binding : Option Bytes → IrohEndpointId → Bool
  matches_binding none binding = false
  matches_binding (some bytes) binding = record { endpoint_bytes = bytes } == binding

  unfoldable pub remote_matches : Option Text → IrohEndpointId → Bool
  unfolding matches_binding
  remote_matches none binding = false
  remote_matches (some remote_id) binding =
      matches_binding (net.parse_endpoint_id remote_id) binding

  -- The argument is the remote endpoint of the stream's path, when it is known.
  unfoldable pub endpoint_matches_binding : Option Text → IrohEndpointId → Bool
  unfolding remote_matches
  endpoint_matches_binding none binding = false
  endpoint_matches_binding (some remote) binding =
      remote_matches (strip_prefix (codes "iroh://") remote) binding

  unfoldable pub validate_client :
      AuthenticatedSessionConfig
      → AuthenticatedClientHello
      → Option Text
      → ℕ
      → Result AuthenticatedSessionError (Unit {0})
  validate_client local client remote now =
      reject
        (not (client.protocol_version == auth_session_protocol_version)
          || not (client.network_id == local.network_id)
          || not (client.sister_public_key == client.membership_certificate.sister_public_key)
          || not (client.sister_id == client.membership_certificate.sister_id)
          || not (client.membership_certificate.network_id == local.network_id)
          || not (client.transport_binding.network_id == local.network_id)
          || not (client.transport_binding.sister_id == client.sister_id)
          || not (client.transport_binding.sister_public_key == client.sister_public_key)
          || not (AuthenticatedClientHello.verify_signature client)
          || not (MembershipCertificate.verify client.membership_certificate local.authority)
          || not (MembershipCertificate.is_valid_at client.membership_certificate now)
          || not (TransportBinding.verify client.transport_binding))
        rejected
      >> (membership_is_revoked local MembershipKind.sister client.membership_certificate.serial
          >>= λ revoked.
              reject
                (revoked
                  || not
                      (endpoint_matches_binding remote client.transport_binding.iroh_endpoint_id))
                rejected)

  -- The tests of validate_server that the pins and the client play no part in.
  unfoldable pub is_unproven : AuthenticatedSessionConfig → AuthenticatedServerHello → ℕ → Bool
  is_unproven local server now =
      not (server.sister_public_key == server.membership_certificate.sister_public_key)
      || not (server.sister_id == server.membership_certificate.sister_id)
      || not (server.membership_certificate.network_id == local.network_id)
      || not (server.transport_binding.network_id == local.network_id)
      || not (server.transport_binding.sister_id == server.sister_id)
      || not (server.transport_binding.sister_public_key == server.sister_public_key)
      || not (AuthenticatedServerHello.verify_signature server)
      || not (MembershipCertificate.verify server.membership_certificate local.authority)
      || not (MembershipCertificate.is_valid_at server.membership_certificate now)
      || not (TransportBinding.verify server.transport_binding)

  unfoldable pub validate_server :
      AuthenticatedSessionConfig
      → AuthenticatedClientHello
      → AuthenticatedServerHello
      → Option ℕ
      → Option SisterPublicKey
      → Option Text
      → ℕ
      → Result AuthenticatedSessionError (Unit {0})
  validate_server local client server expected_sister_id expected_key remote now =
      reject
        (not (server.protocol_version == auth_session_protocol_version)
          || not (server.network_id == local.network_id)
          || not (server.client_nonce == client.nonce)
          || is_some_and expected_sister_id (λ id. not (server.sister_id.number == id))
          || is_some_and expected_key (λ key. not (server.sister_public_key == key))
          || is_unproven local server now)
        rejected
      >> (membership_is_revoked local MembershipKind.sister server.membership_certificate.serial
          >>= λ revoked.
              reject
                (revoked
                  || not
                      (endpoint_matches_binding remote server.transport_binding.iroh_endpoint_id))
                rejected)
