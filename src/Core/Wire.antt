-- ===== src/Core/Wire.antt =====
-- The third-party code that the contracts call: ed25519_dalek, sha2, and bincode::serialize at each
-- type that is signed or hashed. A `Wire` is a parameter of every definition that uses them.
use misaka.Prelude.{◌<◌, Bytes, Bool, true, Option, some, All, ◌≡◌}
use misaka.Core.Types.{
  MembershipCertificateUnsigned, HumanMembershipCertificateUnsigned, RevocationRecordUnsigned,
  TransportBindingUnsigned, PeerRecordUnsigned, NetworkInviteUnsigned, CommandAuthorizationUnsigned,
  KeyPossessionChallenge, GatewayAuthUnsigned, AnnouncePayload, EnrollmentInvite,
  EnrollmentInviteUnsigned, EnrollmentChallenge, AuthenticatedClientHelloUnsigned,
  AuthenticatedServerHelloUnsigned,
}

pub record Wire : Type 0 where
  -- VerifyingKey::from_bytes succeeds; key.verify(message, signature).is_ok()
  pub is_valid_key : Bytes → Bool
  pub ed25519_verify : Bytes → Bytes → Bytes → Bool
  -- SigningKey::sign; SigningKey::verifying_key
  pub ed25519_sign : Bytes → Bytes → Bytes
  pub verifying_key : Bytes → Bytes
  -- Sha256::digest
  pub sha256 : Bytes → Bytes
  -- bincode::serialize
  pub membership_bytes : MembershipCertificateUnsigned → Bytes
  pub human_membership_bytes : HumanMembershipCertificateUnsigned → Bytes
  pub revocation_bytes : RevocationRecordUnsigned → Bytes
  pub binding_bytes : TransportBindingUnsigned → Bytes
  pub peer_record_bytes : PeerRecordUnsigned → Bytes
  pub network_invite_bytes : NetworkInviteUnsigned → Bytes
  pub command_bytes : CommandAuthorizationUnsigned → Bytes
  pub challenge_bytes : KeyPossessionChallenge → Bytes
  pub gateway_auth_bytes : GatewayAuthUnsigned → Bytes
  pub announce_bytes : AnnouncePayload → Bytes
  pub enrollment_invite_bytes : EnrollmentInviteUnsigned → Bytes
  pub enrollment_challenge_bytes : EnrollmentChallenge → Bytes
  pub client_hello_bytes : AuthenticatedClientHelloUnsigned → Bytes
  pub server_hello_bytes : AuthenticatedServerHelloUnsigned → Bytes
  pub invite_code_bytes : EnrollmentInvite → Bytes
  -- bincode::deserialize, `none` for an error
  pub read_invite : Bytes → Option EnrollmentInvite

-- What ed25519_dalek documents: a public key is valid, and verifies what its secret key signed.
pub record SignsSoundly (w : Wire) : Type 0 where
  pub key_valid : (secret : Bytes) → w.is_valid_key (w.verifying_key secret) ≡ true
  pub signature_verifies :
      (secret message : Bytes)
      → w.ed25519_verify (w.verifying_key secret) message (w.ed25519_sign secret message) ≡ true

-- What bincode documents, at one invite: it writes bytes, and reads back what it wrote.
pub record CodesSoundly (w : Wire) (invite : EnrollmentInvite) : Type 0 where
  pub writes_bytes : All (λ b. b < 256) (w.invite_code_bytes invite)
  pub reads_back : w.read_invite (w.invite_code_bytes invite) ≡ some invite
