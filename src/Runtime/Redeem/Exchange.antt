-- ===== src/Runtime/Redeem/Exchange.antt =====
-- crates/misaka-runtime/src/enrollment.rs: an honest exchange succeeds, and what it installs is valid.
use misaka.Prelude.{
  ℕ, ◌≤◌, ◌≡◌, refl, sym, ap, ◌∙◌, Bytes, true, none, nat_eq, bytes_eq, ℕ_discrete, leb, All, arith,
}
use misaka.Prelude.Result.{Result, ok, err}
use misaka.Core.Types.{
  SisterId, SisterKeyPair, EnrollmentInvite, EnrollmentRequest, EnrollmentChallenge,
  EnrollmentProof, EnrollmentResponse, network_id_eq, sister_id_eq, sister_public_key_eq,
}
use misaka.Core.EnrollmentInvite
use misaka.Core.EnrollmentChallenge
use misaka.Core.EnrollmentResponse.{accept, validate_received}
use misaka.Core.MembershipCertificate
use misaka.Core.Contracts.{MembershipCertificate-issued}
use misaka.Core.Enrollment.{IsTrusted, validate_received_iff, verify-solve}
use misaka.Core.Keys.{sister_public_key, authority_public_key}
use misaka.Core.Wire.{Wire, SignsSoundly}
use misaka.Runtime.MembershipSerialStore.{whole, allocate, saturating_succ}
use misaka.Runtime.Enrollment.{
  EnrollmentServer, EnrollmentFailure, EnrollmentRejectionKind, evaluate, issue_membership,
  bootstrap, serve_evaluated, serve_request, serve_allocated, serve_proof, from_core, to_core,
}
use misaka.Runtime.Enrollment.Cases.{IsRedeemable, challenge_of, evaluate_iff}
use misaka.Runtime.Enrollment.Bootstrap.{bootstrap-All}
use misaka.Runtime.Redeem.{
  Surroundings, answer_challenge, answer_reply, read_outcome, finish_exchange, start_exchange,
  exchange,
}

-- A reason comes back from the wire as it went.
from_core-to_core : (reason : EnrollmentRejectionKind) → from_core (to_core reason) ≡ reason
unfolding from_core to_core
from_core-to_core EnrollmentRejectionKind.invalid_invite = refl
from_core-to_core EnrollmentRejectionKind.expired = refl
from_core-to_core EnrollmentRejectionKind.wrong_network = refl
from_core-to_core EnrollmentRejectionKind.invalid_proof = refl
from_core-to_core EnrollmentRejectionKind.protocol = refl
from_core-to_core EnrollmentRejectionKind.issuance_failed = refl

module _ ⦃w : Wire⦄ where
  -- The request that the joining Sister sends.
  abbrev pub request_of :
      Surroundings → EnrollmentInvite → SisterId → SisterKeyPair → EnrollmentRequest
  request_of at invite sister_id key =
      EnrollmentChallenge.new_request invite sister_id (sister_public_key key) at.recipient_nonce

  serve_request-evaluated :
      (s : EnrollmentServer) (now : ℕ) (nonce : Bytes) (at : Surroundings)
      (invite : EnrollmentInvite) (sister_id : SisterId) (key : SisterKeyPair)
      → serve_request s now nonce (request_of at invite sister_id key)
        ≡ serve_evaluated (evaluate s now nonce (request_of at invite sister_id key))
  unfolding serve_request EnrollmentChallenge.new_request ℕ_discrete
  serve_request-evaluated s now nonce at invite sister_id key = refl

  own_challenge_answered :
      (s : EnrollmentServer) (at : Surroundings) (invite : EnrollmentInvite) (sister_id : SisterId)
      (key : SisterKeyPair)
      → invite.network_id ≡ s.network_id
      → answer_challenge invite sister_id key at.recipient_nonce
          (challenge_of s at.authority_nonce (request_of at invite sister_id key))
        ≡ ok (
            EnrollmentChallenge.solve
              (challenge_of s at.authority_nonce (request_of at invite sister_id key))
              key)
  unfolding answer_challenge EnrollmentChallenge.new EnrollmentChallenge.new_request
  own_challenge_answered s at invite sister_id key own = ground arith

  proof_answered :
      (s : EnrollmentServer) (at : Surroundings) (request : EnrollmentRequest)
      (c : EnrollmentChallenge) (proof : EnrollmentProof)
      → EnrollmentChallenge.verify c proof ≡ true
      → at.write ≡ whole
      → (finish_exchange s at request (ok c) (ok proof)).0
        ≡ ok (issue_membership s at.issued_at request (saturating_succ s.serials.state))
  unfolding finish_exchange serve_proof serve_allocated allocate read_outcome issue_membership
      accept
  proof_answered s at request c proof p written = rw (p, written) refl

  -- The client learns the very reason for which the server refuses its request.
  pub exchange-refused :
      (s : EnrollmentServer) (at : Surroundings) (invite : EnrollmentInvite) (sister_id : SisterId)
      (key : SisterKeyPair) (reason : EnrollmentRejectionKind)
      → evaluate s at.evaluated_at at.authority_nonce (request_of at invite sister_id key)
        ≡ err reason
      → exchange s at invite sister_id key ≡ (err (EnrollmentFailure.rejected reason), s)
  unfolding exchange start_exchange finish_exchange answer_reply serve_evaluated
  exchange-refused s at invite sister_id key reason h =
      rw (serve_request-evaluated s at.evaluated_at at.authority_nonce at invite sister_id key, h)
        (ap (λ k. (err (EnrollmentFailure.rejected k), s)) (from_core-to_core reason))

verified_network :
    ⦃w : Wire⦄ (invite : EnrollmentInvite) (now : ℕ)
    → EnrollmentInvite.verify invite now ≡ true
    → invite.network_id ≡ invite.authority.network_id
unfolding EnrollmentInvite.verify
verified_network invite now h = ground arith

ok-injective :
    {a b : EnrollmentResponse}
    → (let r : Result EnrollmentFailure EnrollmentResponse = ok a in r ≡ ok b)
    → a ≡ b
ok-injective h = cc

authority_network :
    ⦃w : Wire⦄ (s : EnrollmentServer) (now : ℕ) (invite : EnrollmentInvite)
    → IsRedeemable s now invite
    → s.authority.network_id ≡ s.network_id
authority_network s now invite h =
    ap (λ a. a.network_id) (sym h.own_authority)
    ∙ sym (verified_network invite now h.verified)
    ∙ h.own_network

module _ ⦃w : Wire⦄ (sound : SignsSoundly w) where
  -- Redeeming a redeemable invite of a server whose write succeeds ends with a membership of the
  -- next serial.
  pub exchange-issued :
      (s : EnrollmentServer) (at : Surroundings) (invite : EnrollmentInvite) (sister_id : SisterId)
      (key : SisterKeyPair)
      → IsRedeemable s at.evaluated_at invite
      → at.write ≡ whole
      → (exchange s at invite sister_id key).0
        ≡ ok (
            issue_membership s at.issued_at
              (request_of at invite sister_id key)
              (saturating_succ s.serials.state))
  unfolding exchange start_exchange serve_evaluated answer_reply EnrollmentChallenge.new_request
      EnrollmentChallenge.new sister_public_key
  exchange-issued s at invite sister_id key h written =
      let request = request_of at invite sister_id key in
      let c = challenge_of s at.authority_nonce request in
      let evaluated : evaluate s at.evaluated_at at.authority_nonce request ≡ ok c =
        (evaluate_iff s at.evaluated_at at.authority_nonce request c).1 (h, refl) in
      let proved = verify-solve sound c key refl in
      rw
        (
          serve_request-evaluated s at.evaluated_at at.authority_nonce at invite sister_id key,
          evaluated,
          own_challenge_answered s at invite sister_id key h.own_network,
        )
        (proof_answered s at request c (EnrollmentChallenge.solve c key) proved written)

  -- What an honest exchange gives passes the recipient's checks from the time of issue on, for a
  -- server with its own key whose records are trusted: the descriptor, the membership of the next
  -- serial and the records are installed.
  pub exchange-installed :
      (s : EnrollmentServer) (at : Surroundings) (invite : EnrollmentInvite) (sister_id : SisterId)
      (key : SisterKeyPair) (response : EnrollmentResponse) (now : ℕ)
      → s.authority.authority_public_key ≡ authority_public_key s.authority_key
      → IsRedeemable s at.evaluated_at invite
      → at.write ≡ whole
      → IsTrusted s.network_id s.locator
      → All (IsTrusted s.network_id) s.extra_bootstrap
      → at.issued_at ≤ now
      → (exchange s at invite sister_id key).0 ≡ ok response
      → validate_received response invite s.network_id sister_id (sister_public_key key) now
        ≡ ok (record {
          authority = s.authority;
          membership =
              MembershipCertificate.issue s.authority s.authority_key
                (sister_public_key key)
                sister_id.number
                at.issued_at
                none
                (saturating_succ s.serials.state);
          bootstrap_records = bootstrap s;
        })
  unfolding issue_membership accept EnrollmentChallenge.new_request MembershipCertificate.issue
      MembershipCertificate.is_valid_at
  exchange-installed s at invite sister_id key response now owned h written l x late got =
      let issued =
        issue_membership s at.issued_at (request_of at invite sister_id key)
          (saturating_succ s.serials.state) in
      let e : response ≡ issued =
        ok-injective (sym got ∙ exchange-issued s at invite sister_id key h written) in
      let n = authority_network s at.evaluated_at invite h in
      let certificate =
        MembershipCertificate.issue s.authority s.authority_key (sister_public_key key)
          sister_id.number at.issued_at none (saturating_succ s.serials.state) in
      ap (λ r. validate_received r invite s.network_id sister_id (sister_public_key key) now) e
      ∙ (validate_received_iff issued invite s.network_id sister_id (sister_public_key key) now _).1
          (
            refl,
            refl,
            record {
              from_invite = sym h.own_authority;
              in_network = n;
              member_network = n;
              member_sister = refl;
              member_key = refl;
              member_signed =
                  MembershipCertificate-issued sound s.authority s.authority_key
                    (sister_public_key key) sister_id.number at.issued_at none
                    (saturating_succ s.serials.state) owned;
              member_current = (let t : leb at.issued_at now ≡ true = ground arith in rw t refl);
              records_trusted = bootstrap-All (IsTrusted s.network_id) s l x;
            },
          )
