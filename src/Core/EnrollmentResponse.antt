-- ===== src/Core/EnrollmentResponse.antt =====
-- crates/misaka-core/src/enrollment.rs: impl EnrollmentResponse.
use misaka.Prelude.{ℕ, not, ◌||◌, List, ◌==◌, nat_eq, any}
use misaka.Prelude.Result.{Result, ok, err, ◌>>◌, reject}
use misaka.Core.Types.{
  NetworkId, SisterId, SisterPublicKey, NetworkAuthority, MembershipCertificate, PeerRecord,
  EnrollmentInvite, EnrollmentRejection, wrong_network, issuance_failed, EnrollmentOutcome,
  accepted, rejected, EnrollmentResponse, EnrollmentBundle, network_id_eq, sister_id_eq,
  sister_public_key_eq, network_authority_eq,
}
use misaka.Core.PeerRecord
use misaka.Core.MembershipCertificate
use misaka.Core.EnrollmentChallenge.{enrollment_protocol_version}
use misaka.Core.Wire.{Wire}

-- EnrollmentResponse::accepted
unfoldable pub accept :
    NetworkAuthority → MembershipCertificate → List PeerRecord → EnrollmentResponse
accept authority membership bootstrap_records = record {
  protocol_version = enrollment_protocol_version;
  outcome = accepted authority membership bootstrap_records;
}

-- EnrollmentResponse::rejected
unfoldable pub refuse : EnrollmentRejection → EnrollmentResponse
refuse reason = record { protocol_version = enrollment_protocol_version; outcome = rejected reason }

module _ ⦃w : Wire⦄ where
  -- The checks of validate_received on an accepted outcome.
  unfoldable pub validate_accepted :
      NetworkAuthority
      → MembershipCertificate
      → List PeerRecord
      → EnrollmentInvite
      → NetworkId
      → SisterId
      → SisterPublicKey
      → ℕ
      → Result EnrollmentRejection EnrollmentBundle
  validate_accepted authority membership bootstrap invite expected sister_id key now = do
    reject (not (authority == invite.authority) || not (authority.network_id == expected))
        wrong_network
    reject
        (not (membership.network_id == expected)
          || not (membership.network_id == authority.network_id)
          || not (membership.sister_id == sister_id)
          || not (membership.sister_public_key == key)
          || not (MembershipCertificate.verify membership authority)
          || not (MembershipCertificate.is_valid_at membership now))
        issuance_failed
    reject (any (λ r. not (r.network_id == expected) || not (PeerRecord.verify r)) bootstrap)
        issuance_failed
    ok (record { authority = authority; membership = membership; bootstrap_records = bootstrap })

  unfoldable pub validate_outcome :
      EnrollmentOutcome
      → EnrollmentInvite
      → NetworkId
      → SisterId
      → SisterPublicKey
      → ℕ
      → Result EnrollmentRejection EnrollmentBundle
  validate_outcome (accepted authority membership bootstrap) invite expected sister_id key now =
      validate_accepted authority membership bootstrap invite expected sister_id key now
  validate_outcome (rejected reason) invite expected sister_id key now = err reason

  unfoldable pub validate_received :
      EnrollmentResponse
      → EnrollmentInvite
      → NetworkId
      → SisterId
      → SisterPublicKey
      → ℕ
      → Result EnrollmentRejection EnrollmentBundle
  validate_received response invite expected sister_id key now = do
    reject (not (response.protocol_version == enrollment_protocol_version))
        EnrollmentRejection.protocol_version
    validate_outcome response.outcome invite expected sister_id key now
