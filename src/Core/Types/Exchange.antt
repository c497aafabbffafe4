-- ===== src/Core/Types/Exchange.antt =====
-- crates/misaka-core/src/gateway.rs and enrollment.rs: the messages of the Gateway and of the
-- enrollment exchange, each signed contract with the view of it that is signed.
use misaka.Prelude.{ℕ, Bytes, List}
use misaka.Core.Types.Keys.{
  NetworkId, SisterId, SisterPublicKey, SisterSignature, AuthoritySignature,
}
use misaka.Core.Types.Member.{NetworkAuthority, MembershipCertificate}
use misaka.Core.Types.Signed.{PeerRecord}

-- The envelope that authenticates one Gateway request.
pub record GatewayAuth : Type 0 where
  pub network_id : NetworkId
  pub sister_id : SisterId
  pub timestamp : ℕ
  pub nonce : Bytes
  pub body_digest : Bytes
  pub signature : SisterSignature

pub record GatewayAuthUnsigned : Type 0 where
  pub network_id : NetworkId
  pub sister_id : SisterId
  pub timestamp : ℕ
  pub nonce : Bytes
  pub body_digest : Bytes

pub record GatewayAnnounceRequest : Type 0 where
  pub auth : GatewayAuth
  pub membership : MembershipCertificate
  pub peer_record : PeerRecord

pub record GatewayPeersRequest : Type 0 where
  pub auth : GatewayAuth
  pub membership : MembershipCertificate

-- What the digest of an announce request is taken over.
pub record AnnouncePayload : Type 0 where
  pub membership : MembershipCertificate
  pub peer_record : PeerRecord

-- A time-limited invite that names no recipient.
pub record EnrollmentInvite : Type 0 where
  pub version : ℕ
  pub network_id : NetworkId
  pub authority : NetworkAuthority
  pub issued_at : ℕ
  pub expires_at : ℕ
  pub invite_nonce : Bytes
  pub locator : PeerRecord
  pub authority_signature : AuthoritySignature

pub record EnrollmentInviteUnsigned : Type 0 where
  pub version : ℕ
  pub network_id : NetworkId
  pub authority : NetworkAuthority
  pub issued_at : ℕ
  pub expires_at : ℕ
  pub invite_nonce : Bytes
  pub locator : PeerRecord

pub record EnrollmentRequest : Type 0 where
  pub protocol_version : ℕ
  pub invite : EnrollmentInvite
  pub sister_id : SisterId
  pub sister_public_key : SisterPublicKey
  pub recipient_nonce : Bytes

pub record EnrollmentChallenge : Type 0 where
  pub protocol_version : ℕ
  pub network_id : NetworkId
  pub invite_digest : Bytes
  pub sister_id : SisterId
  pub sister_public_key : SisterPublicKey
  pub authority_nonce : Bytes
  pub recipient_nonce : Bytes

pub record EnrollmentProof : Type 0 where
  pub signature : SisterSignature

pub data EnrollmentRejection : Type 0 where
  invalid_invite expired wrong_network invalid_proof protocol_version issuance_failed :
      EnrollmentRejection

pub data EnrollmentOutcome : Type 0 where
  accepted : NetworkAuthority → MembershipCertificate → List PeerRecord → EnrollmentOutcome
  rejected : EnrollmentRejection → EnrollmentOutcome

pub record EnrollmentResponse : Type 0 where
  pub protocol_version : ℕ
  pub outcome : EnrollmentOutcome

-- Fully validated material, ready to be installed.
pub record EnrollmentBundle : Type 0 where
  pub authority : NetworkAuthority
  pub membership : MembershipCertificate
  pub bootstrap_records : List PeerRecord
