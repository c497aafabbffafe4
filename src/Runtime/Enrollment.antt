-- ===== src/Runtime/Enrollment.antt =====
-- crates/misaka-runtime/src/enrollment.rs: the Authority's end of the enrollment exchange. The
-- frames carry values, and the clock and `random()` are arguments.
pub mod Bootstrap
pub mod Cases
use misaka.Prelude.{
  ℕ, Bytes, Text, Bool, true, false, not, ◌||◌, Option, none, some, List, [], ◌∷◌, ◌++◌, ◌==◌,
  nat_eq, bytes_eq, ℕ_discrete, leb, if◌then◌else◌,
}
use misaka.Prelude.Result.{Result, ok, err, ◌>>=◌, ◌>>◌, reject}
use misaka.Core.Types.{
  NetworkId, SisterId, SisterKeyPair, IrohEndpointId, NetworkAuthority, AuthorityKeyPair,
  PeerRecord, EnrollmentInvite, EnrollmentRequest, EnrollmentChallenge, EnrollmentProof,
  EnrollmentRejection, EnrollmentOutcome, EnrollmentResponse, network_id_eq, sister_id_eq,
  sister_public_key_eq, network_authority_eq, iroh_endpoint_id_eq,
}
use misaka.Core.EnrollmentInvite
use misaka.Core.EnrollmentChallenge
use misaka.Core.EnrollmentChallenge.{enrollment_protocol_version}
use misaka.Core.EnrollmentResponse.{accept, refuse}
use misaka.Core.MembershipCertificate
use misaka.Core.Keys.{sister_public_key}
use misaka.Core.Wire.{Wire}
use misaka.Runtime.MembershipSerialStore.{MembershipSerialStore, Written, IoError, allocate}

pub record EnrollmentServer : Type 0 where
  pub network_id : NetworkId
  pub authority : NetworkAuthority
  pub authority_key : AuthorityKeyPair
  pub sister_id : ℕ
  pub iroh_endpoint_id : IrohEndpointId
  pub locator : PeerRecord
  pub extra_bootstrap : List PeerRecord
  pub serials : MembershipSerialStore

pub data EnrollmentRejectionKind : Type 0 where
  invalid_invite expired wrong_network invalid_proof protocol issuance_failed :
      EnrollmentRejectionKind

pub data EnrollmentFailure : Type 0 where
  transport : Text → EnrollmentFailure
  protocol : EnrollmentFailure
  rejected : EnrollmentRejectionKind → EnrollmentFailure

pub data ServerReply : Type 0 where
  challenges : EnrollmentChallenge → ServerReply
  rejects : EnrollmentRejection → ServerReply

unfoldable pub to_core : EnrollmentRejectionKind → EnrollmentRejection
to_core invalid_invite = EnrollmentRejection.invalid_invite
to_core expired = EnrollmentRejection.expired
to_core wrong_network = EnrollmentRejection.wrong_network
to_core invalid_proof = EnrollmentRejection.invalid_proof
to_core protocol = EnrollmentRejection.protocol_version
to_core issuance_failed = EnrollmentRejection.issuance_failed

unfoldable pub from_core : EnrollmentRejection → EnrollmentRejectionKind
from_core EnrollmentRejection.invalid_invite = invalid_invite
from_core EnrollmentRejection.expired = expired
from_core EnrollmentRejection.wrong_network = wrong_network
from_core EnrollmentRejection.invalid_proof = invalid_proof
from_core EnrollmentRejection.protocol_version = protocol
from_core EnrollmentRejection.issuance_failed = issuance_failed

-- [T]::sort_by_key, a stable sort, by the Sister's number.
unfoldable pub insert_by_sister : PeerRecord → List PeerRecord → List PeerRecord
insert_by_sister r [] = r ∷ []
insert_by_sister r (s ∷ ss) =
    let rest = insert_by_sister r ss in
    if leb r.sister_id.number s.sister_id.number then r ∷ s ∷ ss else s ∷ rest

unfoldable pub sort_by_sister : List PeerRecord → List PeerRecord
sort_by_sister [] = []
sort_by_sister (r ∷ rs) = insert_by_sister r (sort_by_sister rs)

-- Vec::dedup_by: what has the same Sister as the record kept before it goes.
unfoldable pub dedup_after : PeerRecord → List PeerRecord → List PeerRecord
dedup_after kept [] = []
dedup_after kept (r ∷ rs) =
    let same = dedup_after kept rs in
    let other = dedup_after r rs in if r.sister_id == kept.sister_id then same else r ∷ other

unfoldable pub dedup_by_sister : List PeerRecord → List PeerRecord
dedup_by_sister [] = []
dedup_by_sister (r ∷ rs) = r ∷ dedup_after r rs

unfoldable pub bootstrap : EnrollmentServer → List PeerRecord
unfolding dedup_by_sister sort_by_sister
bootstrap s = dedup_by_sister (sort_by_sister (s.locator ∷ s.extra_bootstrap))

module _ ⦃w : Wire⦄ where
  unfoldable pub evaluate :
      EnrollmentServer
      → ℕ
      → Bytes
      → EnrollmentRequest
      → Result EnrollmentRejectionKind EnrollmentChallenge
  evaluate s now authority_nonce request =
      let invite = request.invite in
      reject (not (EnrollmentInvite.verify invite now))
        (if EnrollmentInvite.is_expired invite now then expired else invalid_invite)
      >> reject (not (invite.network_id == s.network_id) || not (invite.authority == s.authority))
          wrong_network
      >> reject
          (not (invite.locator.sister_id.number == s.sister_id)
            || not (invite.locator.transport_binding.iroh_endpoint_id == s.iroh_endpoint_id))
          invalid_invite
      >> ok (
          EnrollmentChallenge.new s.network_id (EnrollmentInvite.digest invite) request.sister_id
            request.sister_public_key authority_nonce request.recipient_nonce)

  unfoldable pub issue_membership :
      EnrollmentServer → ℕ → EnrollmentRequest → ℕ → EnrollmentResponse
  unfolding bootstrap
  issue_membership s now request serial =
      accept s.authority
        (MembershipCertificate.issue s.authority s.authority_key request.sister_public_key
          request.sister_id.number now none serial)
        (bootstrap s)

  -- serve_stream up to the challenge: the frame that is written, and how it goes on.
  unfoldable pub serve_evaluated :
      Result EnrollmentRejectionKind EnrollmentChallenge
      → Option ServerReply × Result EnrollmentFailure EnrollmentChallenge
  unfolding to_core
  serve_evaluated (ok challenge) = (some (challenges challenge), ok challenge)
  serve_evaluated (err reason) =
      (some (rejects (to_core reason)), err (EnrollmentFailure.rejected reason))

  unfoldable pub serve_request :
      EnrollmentServer
      → ℕ
      → Bytes
      → EnrollmentRequest
      → Option ServerReply × Result EnrollmentFailure EnrollmentChallenge
  serve_request s now authority_nonce request =
      if request.protocol_version == enrollment_protocol_version
      then serve_evaluated (evaluate s now authority_nonce request)
      else (none, err EnrollmentFailure.protocol)

  -- serve_stream from the proof on: the response, and the server with its serials.
  unfoldable pub serve_allocated :
      EnrollmentServer
      → ℕ
      → EnrollmentRequest
      → Result IoError ℕ × MembershipSerialStore
      → EnrollmentResponse × EnrollmentServer
  unfolding issue_membership to_core
  serve_allocated s now request (ok serial, store) =
      (issue_membership s now request serial, record s { serials = store })
  serve_allocated s now request (err e, store) =
      (refuse (to_core issuance_failed), record s { serials = store })

  unfoldable pub serve_proof :
      EnrollmentServer
      → ℕ
      → Written
      → EnrollmentRequest
      → EnrollmentChallenge
      → EnrollmentProof
      → EnrollmentResponse × EnrollmentServer
  unfolding to_core serve_allocated
  serve_proof s now write request challenge proof =
      if EnrollmentChallenge.verify challenge proof
      then serve_allocated s now request (allocate s.serials write)
      else (refuse (to_core invalid_proof), s)

  -- The value of serve_stream, from the response that it wrote.
  unfoldable pub serve_result : EnrollmentOutcome → Result EnrollmentFailure (Unit {0})
  serve_result (EnrollmentOutcome.accepted authority membership records) = ok tt
  serve_result (EnrollmentOutcome.rejected reason) =
      err (EnrollmentFailure.rejected issuance_failed)
