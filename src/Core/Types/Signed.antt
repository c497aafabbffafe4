-- ===== src/Core/Types/Signed.antt =====
-- crates/misaka-core/src/identity.rs: transport bindings, peer records, network invites and the
-- human-signed command authorization, each with the view of it that is signed.
use misaka.Prelude.{ℕ, Bytes, Text, Option, List, Eq}
use misaka.Core.Types.Keys.{
  NetworkId, SisterId, SisterPublicKey, SisterSignature, AuthoritySignature, HumanId,
  HumanSignature, IrohEndpointId, SisterId-discrete, HumanId-discrete,
}
use misaka.Core.Types.Member.{
  NetworkAuthority, HumanIdentity, Role, Permission, MembershipCertificate,
  HumanMembershipCertificate,
}

-- The Sister's assertion that an Iroh endpoint is hers.
pub record TransportBinding : Type 0 where
  pub network_id : NetworkId
  pub sister_id : SisterId
  pub sister_public_key : SisterPublicKey
  pub iroh_endpoint_id : IrohEndpointId
  pub sequence : ℕ
  pub signature_by_sister_key : SisterSignature

pub record TransportBindingUnsigned : Type 0 where
  pub network_id : NetworkId
  pub sister_id : SisterId
  pub sister_public_key : SisterPublicKey
  pub iroh_endpoint_id : IrohEndpointId
  pub sequence : ℕ

-- A Sister-signed locator.
pub record PeerRecord : Type 0 where
  pub network_id : NetworkId
  pub sister_id : SisterId
  pub sister_public_key : SisterPublicKey
  pub endpoint_addr : Text
  pub transport_binding : TransportBinding
  pub sequence : ℕ
  pub updated_at : ℕ
  pub sister_signature : SisterSignature

pub record PeerRecordUnsigned : Type 0 where
  pub network_id : NetworkId
  pub sister_id : SisterId
  pub sister_public_key : SisterPublicKey
  pub endpoint_addr : Text
  pub transport_binding : TransportBinding
  pub sequence : ℕ
  pub updated_at : ℕ

-- The v0 invite, with an optional membership for a pre-identified Sister.
pub record NetworkInvite : Type 0 where
  pub network_id : NetworkId
  pub authority : NetworkAuthority
  pub bootstrap_records : List PeerRecord
  pub issued_at : ℕ
  pub expires_at : ℕ
  pub invite_id : Bytes
  pub membership : Option MembershipCertificate
  pub authority_signature : AuthoritySignature

pub record NetworkInviteUnsigned : Type 0 where
  pub network_id : NetworkId
  pub authority : NetworkAuthority
  pub bootstrap_records : List PeerRecord
  pub issued_at : ℕ
  pub expires_at : ℕ
  pub invite_id : Bytes
  pub membership : Option MembershipCertificate

-- A human authorizes a command; a Sister executes it.
pub data Principal : Type 0 where
  human : HumanId → Principal
  sister : SisterId → Principal

unfoldable pub Principal-discrete : Discrete Principal
unfolding HumanId-discrete SisterId-discrete
Principal-discrete = hlevel (HumanId-discrete, SisterId-discrete)

instance abbrev pub principal_eq : Eq Principal
principal_eq = record { dec = Principal-discrete }

-- The authorization of one side-effecting command.
pub record CommandAuthorization : Type 0 where
  pub network_id : NetworkId
  pub issuer : HumanIdentity
  pub membership : HumanMembershipCertificate
  pub role : Role
  pub permission : Permission
  pub target : Option Principal
  pub constraints : List Text
  pub issued_at : ℕ
  pub expires_at : ℕ
  pub nonce : Bytes
  pub signature : HumanSignature

pub record CommandAuthorizationUnsigned : Type 0 where
  pub network_id : NetworkId
  pub issuer : HumanIdentity
  pub membership : HumanMembershipCertificate
  pub role : Role
  pub permission : Permission
  pub target : Option Principal
  pub constraints : List Text
  pub issued_at : ℕ
  pub expires_at : ℕ
  pub nonce : Bytes

-- A nonce that proves possession of a Sister key.
pub record KeyPossessionChallenge : Type 0 where
  pub network_id : NetworkId
  pub nonce : Bytes
