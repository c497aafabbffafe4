-- ===== src/Core/Enrollment.antt =====
-- crates/misaka-core/src/enrollment.rs: what the invite, its code, the proof and the recipient's
-- checks of the response guarantee.
use misaka.Prelude.{
  ℕ, ◌≤◌, ◌≡◌, refl, sym, ap, ◌∙◌, ◌↔◌, Bytes, true, false, not, ◌||◌, List, [], ◌∷◌, ◌==◌, nat_eq,
  any, All, arith,
}
use misaka.Prelude.Result.{ok}
use misaka.Core.Types.{
  NetworkId, SisterId, SisterPublicKey, SisterKeyPair, NetworkAuthority, AuthorityKeyPair,
  MembershipCertificate, PeerRecord, EnrollmentInvite, EnrollmentChallenge, EnrollmentResponse,
  EnrollmentBundle, EnrollmentOutcome, accepted, rejected, network_id_eq, sister_id_eq,
  sister_public_key_eq, network_authority_eq,
}
use misaka.Core.PeerRecord
use misaka.Core.MembershipCertificate
use misaka.Core.EnrollmentInvite
use misaka.Core.EnrollmentChallenge
use misaka.Core.EnrollmentResponse.{validate_received, validate_outcome, validate_accepted}
use misaka.Core.Keys.{
  authority_public_key, authority_verify-sign, sister_public_key, sister_verify, sister_sign,
  sister_verify-sign,
}
use misaka.Core.Wire.{Wire, SignsSoundly}

module _ ⦃w : Wire⦄ where
  -- A record of this Network that verifies.
  unfoldable pub IsTrusted : NetworkId → PeerRecord → Type 0
  IsTrusted network r = (r.network_id ≡ network) × (PeerRecord.verify r ≡ true)

  -- What the recipient may rely on after its checks.
  pub record IsEnrolled (invite : EnrollmentInvite) (network : NetworkId) (sister : SisterId)
      (key : SisterPublicKey) (now : ℕ) (b : EnrollmentBundle) : Type 0 where
    pub from_invite : b.authority ≡ invite.authority
    pub in_network : b.authority.network_id ≡ network
    pub member_network : b.membership.network_id ≡ network
    pub member_sister : b.membership.sister_id ≡ sister
    pub member_key : b.membership.sister_public_key ≡ key
    pub member_signed : MembershipCertificate.verify b.membership b.authority ≡ true
    pub member_current : MembershipCertificate.is_valid_at b.membership now ≡ true
    pub records_trusted : All (IsTrusted network) b.bootstrap_records

  untrusted-All :
      (network : NetworkId) (rs : List PeerRecord)
      → any (λ r. not (r.network_id == network) || not (PeerRecord.verify r)) rs ≡ false
      → All (IsTrusted network) rs
  unfolding IsTrusted
  untrusted-All network [] h = tt
  untrusted-All network (r ∷ rs) h =
      ((ground arith, ground arith), untrusted-All network rs (ground arith))

  accepted-IsEnrolled :
      (authority : NetworkAuthority) (membership : MembershipCertificate)
      (bootstrap : List PeerRecord) (invite : EnrollmentInvite) (network : NetworkId)
      (sister : SisterId) (key : SisterPublicKey) (now : ℕ) (b : EnrollmentBundle)
      → validate_accepted authority membership bootstrap invite network sister key now ≡ ok b
      → (accepted authority membership bootstrap
          ≡ accepted b.authority b.membership b.bootstrap_records)
        × IsEnrolled invite network sister key now b
  unfolding validate_accepted
  accepted-IsEnrolled authority membership bootstrap invite network sister key now b h =
      let a : authority ≡ b.authority = ground arith in
      let m : membership ≡ b.membership = ground arith in
      let r : bootstrap ≡ b.bootstrap_records = ground arith in
      (
        rw (a, m, r) refl,
        record {
          from_invite = sym a ∙ ground arith;
          in_network = ap (λ x. x.network_id) (sym a) ∙ ground arith;
          member_network = ap (λ x. x.network_id) (sym m) ∙ ground arith;
          member_sister = ap (λ x. x.sister_id) (sym m) ∙ ground arith;
          member_key = ap (λ x. x.sister_public_key) (sym m) ∙ ground arith;
          member_signed = rw⁻¹ (a, m) (ground arith);
          member_current = rw⁻¹ m (ground arith);
          records_trusted = rw⁻¹ r (untrusted-All network bootstrap (ground arith));
        },
      )

  outcome-IsEnrolled :
      (o : EnrollmentOutcome) (invite : EnrollmentInvite) (network : NetworkId) (sister : SisterId)
      (key : SisterPublicKey) (now : ℕ) (b : EnrollmentBundle)
      → validate_outcome o invite network sister key now ≡ ok b
      → (o ≡ accepted b.authority b.membership b.bootstrap_records)
        × IsEnrolled invite network sister key now b
  unfolding validate_outcome
  outcome-IsEnrolled (accepted a m r) invite network sister key now b h =
      accepted-IsEnrolled a m r invite network sister key now b h
  outcome-IsEnrolled (rejected e) invite network sister key now b h = cc

  trusted-any :
      (network : NetworkId) (rs : List PeerRecord)
      → All (IsTrusted network) rs
      → any (λ r. not (r.network_id == network) || not (PeerRecord.verify r)) rs ≡ false
  unfolding IsTrusted
  trusted-any network [] h = refl
  trusted-any network (r ∷ rs) h = ground (arith, trusted-any network rs h.1)

  enrolled_accepted :
      (invite : EnrollmentInvite) (network : NetworkId) (sister : SisterId) (key : SisterPublicKey)
      (now : ℕ) (b : EnrollmentBundle)
      → IsEnrolled invite network sister key now b
      → validate_accepted b.authority b.membership b.bootstrap_records invite network sister key now
        ≡ ok b
  unfolding validate_accepted
  enrolled_accepted invite network sister key now b e = ground (
    arith,
    e.from_invite,
    e.in_network,
    e.member_network,
    e.member_sister,
    e.member_key,
    e.member_signed,
    e.member_current,
    trusted-any network b.bootstrap_records e.records_trusted,
  )

  -- The recipient obtains a bundle exactly when the response has this protocol's version and is an
  -- acceptance with that bundle's material, the descriptor is the invite's and names the expected
  -- network, the membership is of that network, this Sister and her key, is signed by that authority and
  -- current, and every bootstrap record is a verified record of the network.
  pub validate_received_iff :
      (response : EnrollmentResponse) (invite : EnrollmentInvite) (network : NetworkId)
      (sister : SisterId) (key : SisterPublicKey) (now : ℕ) (b : EnrollmentBundle)
      → (validate_received response invite network sister key now ≡ ok b) ↔ (
          (response.protocol_version ≡ 1)
          × (response.outcome ≡ accepted b.authority b.membership b.bootstrap_records)
          × IsEnrolled invite network sister key now b)
  unfolding validate_received
  validate_received_iff response invite network sister key now b = (
    λ h.
        let k =
          outcome-IsEnrolled response.outcome invite network sister key now b (ground arith) in
        (ground arith, k.0, k.1),
    λ h.
        let e : validate_outcome response.outcome invite network sister key now ≡ ok b =
          ap (λ o. validate_outcome o invite network sister key now) h.1
          ∙ (unfold validate_outcome in enrolled_accepted invite network sister key now b h.2) in
        ground (arith, e),
  )

module _ ⦃w : Wire⦄ (s : SignsSoundly w) where
  -- An invite that the authority issues verifies exactly inside its window, when the locator is a
  -- verified record of the network.
  pub EnrollmentInvite-issued_iff :
      (authority : NetworkAuthority) (key : AuthorityKeyPair) (issued_at expires_at : ℕ)
      (nonce : Bytes) (locator : PeerRecord) (now : ℕ)
      → authority.authority_public_key ≡ authority_public_key key
      → (EnrollmentInvite.verify
            (EnrollmentInvite.issue authority key issued_at expires_at nonce locator)
            now
          ≡ true)
        ↔ ((issued_at ≤ now)
            × (now ≤ expires_at)
            × (locator.network_id ≡ authority.network_id)
            × (PeerRecord.verify locator ≡ true))
  unfolding EnrollmentInvite.verify EnrollmentInvite.issue EnrollmentInvite.signing_bytes
  EnrollmentInvite-issued_iff authority key issued_at expires_at nonce locator now owned =
      let e = authority_verify-sign s key (
        w.enrollment_invite_bytes (record {
          version = 1;
          network_id = authority.network_id;
          authority = authority;
          issued_at = issued_at;
          expires_at = expires_at;
          invite_nonce = nonce;
          locator = locator;
        })) in
      (λ h. ground arith, λ h. ground arith)

  -- The holder of the key that a challenge names can answer it.
  pub verify-solve :
      (c : EnrollmentChallenge) (key : SisterKeyPair)
      → c.sister_public_key ≡ sister_public_key key
      → EnrollmentChallenge.verify c (EnrollmentChallenge.solve c key) ≡ true
  unfolding EnrollmentChallenge.verify EnrollmentChallenge.solve
  verify-solve c key owned =
      let e = sister_verify-sign s key (EnrollmentChallenge.signing_bytes c) in
      ap
        (λ k.
          sister_verify k (EnrollmentChallenge.signing_bytes c)
            (sister_sign key (EnrollmentChallenge.signing_bytes c)))
        owned
      ∙ e
