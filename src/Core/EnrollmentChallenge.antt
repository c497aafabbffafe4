-- ===== src/Core/EnrollmentChallenge.antt =====
-- crates/misaka-core/src/enrollment.rs: impl EnrollmentRequest and EnrollmentChallenge.
use misaka.Prelude.{ℕ, Bytes, Bool}
use misaka.Core.Types.{
  NetworkId, SisterId, SisterPublicKey, SisterKeyPair, EnrollmentInvite, EnrollmentRequest,
  EnrollmentChallenge, EnrollmentProof,
}
use misaka.Core.Wire.{Wire}
use misaka.Core.Keys.{sister_verify, sister_sign}

-- ENROLLMENT_PROTOCOL_VERSION
abbrev pub enrollment_protocol_version : ℕ
enrollment_protocol_version = 1

unfoldable pub new_request :
    EnrollmentInvite → SisterId → SisterPublicKey → Bytes → EnrollmentRequest
new_request invite sister_id sister_public_key recipient_nonce = record {
  protocol_version = enrollment_protocol_version;
  invite = invite;
  sister_id = sister_id;
  sister_public_key = sister_public_key;
  recipient_nonce = recipient_nonce;
}

unfoldable pub new :
    NetworkId → Bytes → SisterId → SisterPublicKey → Bytes → Bytes → EnrollmentChallenge
new network_id invite_digest sister_id sister_public_key authority_nonce recipient_nonce = record {
  protocol_version = enrollment_protocol_version;
  network_id = network_id;
  invite_digest = invite_digest;
  sister_id = sister_id;
  sister_public_key = sister_public_key;
  authority_nonce = authority_nonce;
  recipient_nonce = recipient_nonce;
}

module _ ⦃w : Wire⦄ where
  unfoldable pub signing_bytes : EnrollmentChallenge → Bytes
  signing_bytes c = w.enrollment_challenge_bytes c

  unfoldable pub solve : EnrollmentChallenge → SisterKeyPair → EnrollmentProof
  solve c key = record { signature = sister_sign key (signing_bytes c) }

  unfoldable pub verify : EnrollmentChallenge → EnrollmentProof → Bool
  verify c proof = sister_verify c.sister_public_key (signing_bytes c) proof.signature
