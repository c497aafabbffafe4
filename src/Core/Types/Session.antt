-- ===== src/Core/Types/Session.antt =====
-- crates/misaka-core/src/protocol.rs: the two messages of the authenticated session handshake, each
-- with the view of it that is signed.
use misaka.Prelude.{ℕ, Bytes}
use misaka.Core.Types.Keys.{NetworkId, SisterId, SisterPublicKey, SisterSignature}
use misaka.Core.Types.Member.{MembershipCertificate}
use misaka.Core.Types.Signed.{TransportBinding}

-- The first message in an authenticated Iroh stream.
pub record AuthenticatedClientHello : Type 0 where
  pub protocol_version : ℕ
  pub network_id : NetworkId
  pub sister_id : SisterId
  pub sister_public_key : SisterPublicKey
  pub membership_certificate : MembershipCertificate
  pub transport_binding : TransportBinding
  pub nonce : Bytes
  pub signature : SisterSignature

pub record AuthenticatedClientHelloUnsigned : Type 0 where
  pub protocol_version : ℕ
  pub network_id : NetworkId
  pub sister_id : SisterId
  pub sister_public_key : SisterPublicKey
  pub membership_certificate : MembershipCertificate
  pub transport_binding : TransportBinding
  pub nonce : Bytes

-- The server's answer, which carries the client's nonce back.
pub record AuthenticatedServerHello : Type 0 where
  pub protocol_version : ℕ
  pub network_id : NetworkId
  pub sister_id : SisterId
  pub sister_public_key : SisterPublicKey
  pub membership_certificate : MembershipCertificate
  pub transport_binding : TransportBinding
  pub client_nonce : Bytes
  pub nonce : Bytes
  pub signature : SisterSignature

pub record AuthenticatedServerHelloUnsigned : Type 0 where
  pub protocol_version : ℕ
  pub network_id : NetworkId
  pub sister_id : SisterId
  pub sister_public_key : SisterPublicKey
  pub membership_certificate : MembershipCertificate
  pub transport_binding : TransportBinding
  pub client_nonce : Bytes
  pub nonce : Bytes
