-- ===== src/Core/Contracts.antt =====
-- crates/misaka-core/src/{identity,gateway}.rs: what is issued verifies, and exactly when.
use misaka.Prelude.{
  ℕ, ◌+◌, ◌≤◌, ◌≡◌, refl, ◌↔◌, Bytes, Text, true, Option, List, leb, is_none_or, arith,
}
use misaka.Prelude.Result.{ok}
use misaka.Core.Types.{
  NetworkId, NetworkAuthority, AuthorityKeyPair, SisterKeyPair, SisterPublicKey, HumanKeyPair,
  HumanIdentity, Role, Permission, Principal, IrohEndpointId, TransportBinding, network_id_eq,
  role_eq, human_identity_eq,
}
use misaka.Core.MembershipCertificate
use misaka.Core.HumanMembershipCertificate
use misaka.Core.TransportBinding
use misaka.Core.PeerRecord
use misaka.Core.CommandAuthorization
use misaka.Core.Role
use misaka.Core.Gateway.{
  sign, verify_request, verify_signature, signing_bytes, transfer_content_digest,
}
use misaka.Core.Wire.{Wire, SignsSoundly}
use misaka.Core.Keys.{
  sister_public_key, human_public_key, authority_public_key, authority_verify-sign,
  sister_verify-sign, human_verify-sign,
}

module _ ⦃w : Wire⦄ (s : SignsSoundly w) where
  -- A certificate that the authority issues verifies against its descriptor.
  pub MembershipCertificate-issued :
      (authority : NetworkAuthority) (key : AuthorityKeyPair) (sister : SisterPublicKey)
      (sister_id issued_at : ℕ) (expires_at : Option ℕ) (serial : ℕ)
      → authority.authority_public_key ≡ authority_public_key key
      → MembershipCertificate.verify
          (MembershipCertificate.issue authority key sister sister_id issued_at expires_at serial)
          authority
        ≡ true
  unfolding MembershipCertificate.verify MembershipCertificate.issue
      MembershipCertificate.signing_bytes
  MembershipCertificate-issued authority key sister sister_id issued_at expires_at serial owned =
      ground (
        arith,
        authority_verify-sign s key (
            w.membership_bytes (record {
              network_id = authority.network_id;
              sister_public_key = sister;
              sister_id = record { number = sister_id };
              issued_at = issued_at;
              expires_at = expires_at;
              serial = serial;
            })),
      )

  -- A request that a Sister signs is accepted with the certificate that the authority issued for
  -- her exactly when it names the authority's network, the clock is within the window of its
  -- timestamp on either side, and the certificate's own window contains the clock. The key that is
  -- returned is hers.
  pub signed_request_accepted_iff :
      (authority : NetworkAuthority) (authority_key : AuthorityKeyPair) (key : SisterKeyPair)
      (network_id : NetworkId) (sister_id timestamp : ℕ) (nonce body : Bytes) (issued_at : ℕ)
      (expires_at : Option ℕ) (serial now window : ℕ)
      → authority.authority_public_key ≡ authority_public_key authority_key
      → (verify_request
            (sign network_id sister_id timestamp nonce body key)
            body
            (MembershipCertificate.issue authority authority_key
              (sister_public_key key)
              sister_id
              issued_at
              expires_at
              serial)
            authority
            now
            window
          ≡ ok (sister_public_key key))
        ↔ ((network_id ≡ authority.network_id)
            × (now ≤ timestamp + window)
            × (timestamp ≤ now + window)
            × (issued_at ≤ now)
            × (is_none_or expires_at (λ t. leb now t) ≡ true))
  unfolding verify_request sign MembershipCertificate.issue MembershipCertificate.is_valid_at
      verify_signature signing_bytes
  signed_request_accepted_iff authority authority_key key network_id sister_id timestamp nonce body
        issued_at expires_at serial now window owned =
      let certified =
        MembershipCertificate-issued authority authority_key (sister_public_key key) sister_id
          issued_at expires_at serial owned in
      let signed = sister_verify-sign s key (
        w.gateway_auth_bytes (record {
          network_id = network_id;
          sister_id = record { number = sister_id };
          timestamp = timestamp;
          nonce = nonce;
          body_digest = transfer_content_digest body;
        })) in
      (λ h. ground (arith, certified, signed), λ h. ground (arith, certified, signed))

  -- A locator that a Sister issues over a binding verifies exactly when the binding is of the same
  -- network, Sister and key, and itself verifies.
  pub PeerRecord-issued_iff :
      (network_id : NetworkId) (sister_id : ℕ) (endpoint_addr : Text) (binding : TransportBinding)
      (updated_at : ℕ) (key : SisterKeyPair)
      → (PeerRecord.verify
            (PeerRecord.issue network_id sister_id endpoint_addr binding updated_at key)
          ≡ true)
        ↔ ((binding.network_id ≡ network_id)
            × (binding.sister_id.number ≡ sister_id)
            × (binding.sister_public_key ≡ sister_public_key key)
            × (TransportBinding.verify binding ≡ true))
  unfolding PeerRecord.verify PeerRecord.issue PeerRecord.signing_bytes
  PeerRecord-issued_iff network_id sister_id endpoint_addr binding updated_at key =
      let signed = sister_verify-sign s key (
        w.peer_record_bytes (record {
          network_id = network_id;
          sister_id = record { number = sister_id };
          sister_public_key = sister_public_key key;
          endpoint_addr = endpoint_addr;
          transport_binding = binding;
          sequence = binding.sequence;
          updated_at = updated_at;
        })) in
      (λ h. ground (arith, signed), λ h. ground (arith, signed))

  -- The binding that a Sister signs for an endpoint, and the locator that she issues over it.
  pub PeerRecord-signed :
      (network_id : NetworkId) (sister_id : ℕ) (endpoint_id : IrohEndpointId) (sequence : ℕ)
      (endpoint_addr : Text) (updated_at : ℕ) (key : SisterKeyPair)
      → PeerRecord.verify (
          PeerRecord.issue network_id sister_id endpoint_addr
            (TransportBinding.sign network_id sister_id endpoint_id sequence key)
            updated_at
            key)
        ≡ true
  unfolding TransportBinding.verify TransportBinding.sign TransportBinding.signing_bytes
  PeerRecord-signed network_id sister_id endpoint_id sequence endpoint_addr updated_at key =
      let signed = sister_verify-sign s key (
        w.binding_bytes (record {
          network_id = network_id;
          sister_id = record { number = sister_id };
          sister_public_key = sister_public_key key;
          iroh_endpoint_id = endpoint_id;
          sequence = sequence;
        })) in
      (PeerRecord-issued_iff network_id sister_id endpoint_addr
          (TransportBinding.sign network_id sister_id endpoint_id sequence key) updated_at key).1
        (refl, refl, refl, signed)

  -- A command that an operator authorizes, with the role certificate that the authority issued,
  -- verifies exactly when it names the authority's network, the role allows the permission, and
  -- the clock lies in the window of the authorization and in that of the certificate.
  pub authorization_verifies_iff :
      (authority : NetworkAuthority) (authority_key : AuthorityKeyPair) (key : HumanKeyPair)
      (issuer : HumanIdentity) (network_id : NetworkId) (role : Role) (permission : Permission)
      (target : Option Principal) (constraints : List Text) (issued_at expires_at : ℕ)
      (nonce : Bytes) (granted_at : ℕ) (granted_until : Option ℕ) (serial now : ℕ)
      → authority.authority_public_key ≡ authority_public_key authority_key
      → issuer.public_key ≡ human_public_key key
      → (CommandAuthorization.verify
            (CommandAuthorization.issue network_id issuer
              (HumanMembershipCertificate.issue authority authority_key issuer role granted_at
                granted_until serial)
              role
              permission
              target
              constraints
              issued_at
              expires_at
              nonce
              key)
            authority
            now
          ≡ true)
        ↔ ((network_id ≡ authority.network_id)
            × (Role.allows role permission ≡ true)
            × (issued_at ≤ now)
            × (now ≤ expires_at)
            × (granted_at ≤ now)
            × (is_none_or granted_until (λ t. leb now t) ≡ true))
  unfolding CommandAuthorization.verify CommandAuthorization.issue HumanMembershipCertificate.verify
      HumanMembershipCertificate.issue HumanMembershipCertificate.signing_bytes
      CommandAuthorization.signing_bytes
  authorization_verifies_iff authority authority_key key issuer network_id role permission target
        constraints issued_at expires_at nonce granted_at granted_until serial now owned keyed =
      let granted =
        HumanMembershipCertificate.issue authority authority_key issuer role granted_at
          granted_until serial in
      let certified = authority_verify-sign s authority_key (
        w.human_membership_bytes (record {
          network_id = authority.network_id;
          human = issuer;
          role = role;
          issued_at = granted_at;
          expires_at = granted_until;
          serial = serial;
        })) in
      let signed = human_verify-sign s key (
        w.command_bytes (record {
          network_id = network_id;
          issuer = issuer;
          membership = granted;
          role = role;
          permission = permission;
          target = target;
          constraints = constraints;
          issued_at = issued_at;
          expires_at = expires_at;
          nonce = nonce;
        })) in
      (λ h. ground (arith, certified, signed), λ h. ground (arith, certified, signed))
