-- ===== src/Runtime/Enrollment/Cases.antt =====
-- crates/misaka-runtime/src/enrollment.rs: what the Authority challenges and what it issues.
use misaka.Prelude.{
  ℕ, ◌<◌, ◌≡◌, refl, ◌↔◌, inl, inr, Bytes, true, none, List, nat_eq, Bool-cases, arith,
}
use misaka.Prelude.Result.{Result, ok, err}
use misaka.Core.Types.{
  NetworkAuthority, MembershipCertificate, PeerRecord, EnrollmentInvite, EnrollmentRequest,
  EnrollmentChallenge, EnrollmentProof, accepted, network_id_eq, network_authority_eq,
  iroh_endpoint_id_eq,
}
use misaka.Core.EnrollmentInvite
use misaka.Core.EnrollmentChallenge
use misaka.Core.EnrollmentResponse.{accept, refuse}
use misaka.Core.MembershipCertificate
use misaka.Core.Wire.{Wire}
use misaka.Runtime.MembershipSerialStore.{MembershipSerialStore, Written, IoError, allocate}
use misaka.Runtime.Enrollment.{
  EnrollmentServer, expired, evaluate, issue_membership, bootstrap, serve_allocated, serve_proof,
}

module _ ⦃w : Wire⦄ where
  -- The server's own invite, current, with its own locator.
  pub record IsRedeemable (s : EnrollmentServer) (now : ℕ) (invite : EnrollmentInvite)
      : Type 0 where
    pub verified : EnrollmentInvite.verify invite now ≡ true
    pub own_network : invite.network_id ≡ s.network_id
    pub own_authority : invite.authority ≡ s.authority
    pub own_sister : invite.locator.sister_id.number ≡ s.sister_id
    pub own_endpoint : invite.locator.transport_binding.iroh_endpoint_id ≡ s.iroh_endpoint_id

  -- The challenge that belongs to a request.
  abbrev pub challenge_of : EnrollmentServer → Bytes → EnrollmentRequest → EnrollmentChallenge
  challenge_of s nonce request =
      EnrollmentChallenge.new s.network_id (EnrollmentInvite.digest request.invite)
        request.sister_id request.sister_public_key nonce request.recipient_nonce

  -- The server challenges exactly the requests that redeem its own current invite.
  pub evaluate_iff :
      (s : EnrollmentServer) (now : ℕ) (nonce : Bytes) (request : EnrollmentRequest)
      (c : EnrollmentChallenge)
      → (evaluate s now nonce request ≡ ok c)
        ↔ (IsRedeemable s now request.invite × (c ≡ challenge_of s nonce request))
  unfolding evaluate
  evaluate_iff s now nonce request c = (
    λ h. (
      record {
        verified = ground arith;
        own_network = ground arith;
        own_authority = ground arith;
        own_sister = ground arith;
        own_endpoint = ground arith;
      },
      ground arith,
    ),
    λ h. ground (
      arith, h.0.verified, h.0.own_network, h.0.own_authority, h.0.own_sister, h.0.own_endpoint,
      h.1,
    ),
  )

  -- A refusal for expiry means that the invite's window has closed.
  pub evaluate-expired :
      (s : EnrollmentServer) (now : ℕ) (nonce : Bytes) (request : EnrollmentRequest)
      → evaluate s now nonce request ≡ err expired
      → request.invite.expires_at < now
  unfolding evaluate EnrollmentInvite.is_expired
  evaluate-expired s now nonce request h = ground arith

  -- A membership is issued only against a proof that verifies under the requester's key, with the
  -- serial that was allocated.
  pub record IsIssued (s : EnrollmentServer) (now : ℕ) (write : Written)
      (request : EnrollmentRequest) (c : EnrollmentChallenge) (proof : EnrollmentProof)
      (a : NetworkAuthority) (m : MembershipCertificate) (records : List PeerRecord) : Type 0 where
    pub proved : EnrollmentChallenge.verify c proof ≡ true
    pub serial : ℕ
    pub allocated : (allocate s.serials write).0 ≡ ok serial
    pub own_authority : a ≡ s.authority
    pub membership :
        m
        ≡ MembershipCertificate.issue s.authority s.authority_key request.sister_public_key
            request.sister_id.number now none serial
    pub own_records : records ≡ bootstrap s

  allocated-accepted :
      (s : EnrollmentServer) (now : ℕ) (request : EnrollmentRequest) (a : NetworkAuthority)
      (m : MembershipCertificate) (records : List PeerRecord)
      (r : Result IoError ℕ × MembershipSerialStore)
      → (serve_allocated s now request r).0.outcome ≡ accepted a m records
      → (serial : ℕ) × (r.0 ≡ ok serial)
        × (a ≡ s.authority)
        × (m
            ≡ MembershipCertificate.issue s.authority s.authority_key request.sister_public_key
                request.sister_id.number now none serial)
        × (records ≡ bootstrap s)
  unfolding serve_allocated issue_membership accept refuse
  allocated-accepted s now request a m records (ok n, t) h = (n, refl, cc, cc, cc)
  allocated-accepted s now request a m records (err e, t) h = cc

  -- The server sends a membership only when the proof verifies against the challenge and a serial was
  -- allocated; it is the Authority's certificate of the requester's key with that serial, and goes
  -- with the Authority's own descriptor and records.
  pub serve_proof-IsIssued :
      (s : EnrollmentServer) (now : ℕ) (write : Written) (request : EnrollmentRequest)
      (c : EnrollmentChallenge) (proof : EnrollmentProof) (a : NetworkAuthority)
      (m : MembershipCertificate) (records : List PeerRecord)
      → (serve_proof s now write request c proof).0.outcome ≡ accepted a m records
      → IsIssued s now write request c proof a m records
  unfolding serve_proof
  serve_proof-IsIssued s now write request c proof a m records h =
      elim (Bool-cases (EnrollmentChallenge.verify c proof)) [
        | inl p ↦
            let k =
              allocated-accepted s now request a m records (allocate s.serials write)
                (ground (arith, p, h)) in
            record {
              proved = p;
              serial = k.0;
              allocated = k.1;
              own_authority = k.2;
              membership = k.3;
              own_records = k.4;
            }
        | inr p ↦ unfold refuse in absurd (ground (arith, p, h))
      ]
