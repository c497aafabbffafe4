-- ===== src/Runtime/Redeem.antt =====
-- crates/misaka-runtime/src/enrollment.rs: the joining Sister's end, and the exchange of the two
-- ends. A lost connection is a Transport failure.
pub mod Exchange
use misaka.Prelude.{ℕ, Bytes, Text, Bool, not, ◌||◌, Option, none, some, [], ◌==◌, nat_eq, bytes_eq}
use misaka.Prelude.Result.{Result, ok, err, ◌>>◌, reject}
use misaka.Core.Types.{
  SisterId, SisterKeyPair, EnrollmentInvite, EnrollmentRequest, EnrollmentChallenge,
  EnrollmentProof, EnrollmentOutcome, accepted, rejected, EnrollmentResponse, network_id_eq,
  sister_id_eq, sister_public_key_eq,
}
use misaka.Core.EnrollmentInvite
use misaka.Core.EnrollmentChallenge
use misaka.Core.EnrollmentChallenge.{enrollment_protocol_version}
use misaka.Core.Keys.{sister_public_key}
use misaka.Core.Wire.{Wire}
use misaka.Runtime.MembershipSerialStore.{Written}
use misaka.Runtime.Enrollment.{
  EnrollmentServer, EnrollmentFailure, EnrollmentRejectionKind, invalid_invite, transport,
  ServerReply, challenges, rejects, from_core, serve_request, serve_proof,
}

-- What the two ends do not decide: the clock at each reading, the random nonces, and the write.
pub record Surroundings : Type 0 where
  pub evaluated_at : ℕ
  pub issued_at : ℕ
  pub authority_nonce : Bytes
  pub recipient_nonce : Bytes
  pub write : Written

module _ ⦃w : Wire⦄ where
  -- The checks of redeem on the challenge, and the proof.
  unfoldable pub answer_challenge :
      EnrollmentInvite
      → SisterId
      → SisterKeyPair
      → Bytes
      → EnrollmentChallenge
      → Result EnrollmentFailure EnrollmentProof
  answer_challenge invite sister_id key nonce c =
      reject
        (not (c.protocol_version == enrollment_protocol_version)
          || not (c.network_id == invite.network_id)
          || not (c.invite_digest == EnrollmentInvite.digest invite)
          || not (c.sister_id == sister_id)
          || not (c.sister_public_key == sister_public_key key)
          || not (c.recipient_nonce == nonce))
        (EnrollmentFailure.rejected invalid_invite)
      >> ok (EnrollmentChallenge.solve c key)

  unfoldable pub answer_reply :
      EnrollmentInvite
      → SisterId
      → SisterKeyPair
      → Bytes
      → ServerReply
      → Result EnrollmentFailure EnrollmentProof
  unfolding answer_challenge from_core
  answer_reply invite sister_id key nonce (rejects reason) =
      err (EnrollmentFailure.rejected (from_core reason))
  answer_reply invite sister_id key nonce (challenges c) =
      answer_challenge invite sister_id key nonce c

  unfoldable pub read_outcome :
      EnrollmentResponse → EnrollmentOutcome → Result EnrollmentFailure EnrollmentResponse
  unfolding from_core
  read_outcome response (accepted authority membership records) = ok response
  read_outcome response (rejected reason) = err (EnrollmentFailure.rejected (from_core reason))

  -- redeem against serve_stream from the client's proof on.
  unfoldable pub finish_exchange :
      EnrollmentServer
      → Surroundings
      → EnrollmentRequest
      → Result EnrollmentFailure EnrollmentChallenge
      → Result EnrollmentFailure EnrollmentProof
      → Result EnrollmentFailure EnrollmentResponse × EnrollmentServer
  unfolding serve_proof read_outcome
  finish_exchange s at request started (err f) = (err f, s)
  finish_exchange s at request (err f) (ok proof) = (err (transport []), s)
  finish_exchange s at request (ok c) (ok proof) =
      let (response, t) = serve_proof s at.issued_at at.write request c proof in
      (read_outcome response response.outcome, t)

  unfoldable pub start_exchange :
      EnrollmentServer
      → Surroundings
      → EnrollmentRequest
      → EnrollmentInvite
      → SisterId
      → SisterKeyPair
      → Option ServerReply × Result EnrollmentFailure EnrollmentChallenge
      → Result EnrollmentFailure EnrollmentResponse × EnrollmentServer
  unfolding answer_reply finish_exchange
  start_exchange s at request invite sister_id key (none, started) = (err (transport []), s)
  start_exchange s at request invite sister_id key (some reply, started) =
      finish_exchange s at request started
        (answer_reply invite sister_id key at.recipient_nonce reply)

  -- redeem against serve_stream, over a connection that loses nothing.
  unfoldable pub exchange :
      EnrollmentServer
      → Surroundings
      → EnrollmentInvite
      → SisterId
      → SisterKeyPair
      → Result EnrollmentFailure EnrollmentResponse × EnrollmentServer
  unfolding serve_request start_exchange
  exchange s at invite sister_id key =
      let request =
        EnrollmentChallenge.new_request invite sister_id (sister_public_key key)
          at.recipient_nonce in
      start_exchange s at request invite sister_id key
        (serve_request s at.evaluated_at at.authority_nonce request)
