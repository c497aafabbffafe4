-- ===== src/Core/Types/Member.antt =====
-- crates/misaka-core/src/identity.rs: the authority's descriptor, membership certificates and
-- revocations, each signed contract with the view of it that is signed.
use misaka.Prelude.{ℕ, ℕ_discrete, Bytes-discrete, Text, Option, Eq}
use misaka.Core.Types.Keys.{
  NetworkId, SisterId, SisterPublicKey, AuthorityPublicKey, AuthoritySignature, HumanId,
  HumanPublicKey, NetworkId-discrete, AuthorityPublicKey-discrete, HumanId-discrete,
  HumanPublicKey-discrete, SisterPublicKey-discrete, SisterId-discrete, AuthoritySignature-discrete,
}

-- The public trust root of a network.
pub record NetworkAuthority : Type 0 where
  pub network_id : NetworkId
  pub authority_public_key : AuthorityPublicKey

unfoldable pub NetworkAuthority-discrete : Discrete NetworkAuthority
unfolding NetworkId-discrete AuthorityPublicKey-discrete
NetworkAuthority-discrete = hlevel (NetworkId-discrete, AuthorityPublicKey-discrete)

instance abbrev pub network_authority_eq : Eq NetworkAuthority
network_authority_eq = record { dec = NetworkAuthority-discrete }

pub record HumanIdentity : Type 0 where
  pub id : HumanId
  pub display_name : Text
  pub public_key : HumanPublicKey

unfoldable pub HumanIdentity-discrete : Discrete HumanIdentity
unfolding HumanId-discrete HumanPublicKey-discrete Bytes-discrete
HumanIdentity-discrete = hlevel (HumanId-discrete, HumanPublicKey-discrete, Bytes-discrete)

instance abbrev pub human_identity_eq : Eq HumanIdentity
human_identity_eq = record { dec = HumanIdentity-discrete }

pub data Role : Type 0 where
  owner admin operator : Role

unfoldable pub Role-discrete : Discrete Role
Role-discrete = hlevel

instance abbrev pub role_eq : Eq Role
role_eq = record { dec = Role-discrete }

pub data Permission : Type 0 where
  network_invite network_revoke sister_inspect : Permission
  job_submit job_cancel file_send tunnel_open shell_open : Permission

unfoldable pub Permission-discrete : Discrete Permission
Permission-discrete = hlevel

instance abbrev pub permission_eq : Eq Permission
permission_eq = record { dec = Permission-discrete }

-- The proof that one Sister is a member.
pub record MembershipCertificate : Type 0 where
  pub network_id : NetworkId
  pub sister_public_key : SisterPublicKey
  pub sister_id : SisterId
  pub issued_at : ℕ
  pub expires_at : Option ℕ
  pub serial : ℕ
  pub authority_signature : AuthoritySignature

unfoldable pub MembershipCertificate-discrete : Discrete MembershipCertificate
unfolding NetworkId-discrete SisterPublicKey-discrete SisterId-discrete AuthoritySignature-discrete
    ℕ_discrete
MembershipCertificate-discrete = hlevel (
  NetworkId-discrete, SisterPublicKey-discrete, SisterId-discrete, AuthoritySignature-discrete,
  ℕ_discrete,
)

instance abbrev pub membership_certificate_eq : Eq MembershipCertificate
membership_certificate_eq = record { dec = MembershipCertificate-discrete }

pub record MembershipCertificateUnsigned : Type 0 where
  pub network_id : NetworkId
  pub sister_public_key : SisterPublicKey
  pub sister_id : SisterId
  pub issued_at : ℕ
  pub expires_at : Option ℕ
  pub serial : ℕ

-- The role grant of a human operator.
pub record HumanMembershipCertificate : Type 0 where
  pub network_id : NetworkId
  pub human : HumanIdentity
  pub role : Role
  pub issued_at : ℕ
  pub expires_at : Option ℕ
  pub serial : ℕ
  pub authority_signature : AuthoritySignature

pub record HumanMembershipCertificateUnsigned : Type 0 where
  pub network_id : NetworkId
  pub human : HumanIdentity
  pub role : Role
  pub issued_at : ℕ
  pub expires_at : Option ℕ
  pub serial : ℕ

-- The two namespaces of membership serials.
pub data MembershipKind : Type 0 where
  sister human : MembershipKind

unfoldable pub MembershipKind-discrete : Discrete MembershipKind
MembershipKind-discrete = hlevel

instance abbrev pub membership_kind_eq : Eq MembershipKind
membership_kind_eq = record { dec = MembershipKind-discrete }

pub record RevocationRecord : Type 0 where
  pub network_id : NetworkId
  pub membership_kind : MembershipKind
  pub membership_serial : ℕ
  pub revoked_at : ℕ
  pub reason : Text
  pub authority_signature : AuthoritySignature

pub record RevocationRecordUnsigned : Type 0 where
  pub network_id : NetworkId
  pub membership_kind : MembershipKind
  pub membership_serial : ℕ
  pub revoked_at : ℕ
  pub reason : Text
