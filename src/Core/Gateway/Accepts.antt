-- ===== src/Core/Gateway/Accepts.antt =====
-- crates/misaka-core/src/gateway.rs: which requests `verify_request` accepts.
use misaka.Prelude.{ℕ, ◌+◌, ◌≤◌, ◌≡◌, ◌↔◌, Bytes, true, is_none_or, leb, arith}
use misaka.Prelude.Result.{ok}
use misaka.Core.Types.{SisterPublicKey, NetworkAuthority, MembershipCertificate, GatewayAuth}
use misaka.Core.MembershipCertificate
use misaka.Core.Wire.{Wire}
use misaka.Core.Gateway.{transfer_content_digest, verify_signature, verify_request}

-- The request as the protocol describes it: of this network, over this body, fresh within the
-- window on both sides, presented with a live certificate of the authority, and signed by the
-- certified key of the Sister that it names.
pub record Accepts ⦃w : Wire⦄ (auth : GatewayAuth) (body : Bytes) (m : MembershipCertificate)
    (authority : NetworkAuthority) (now window : ℕ) : Type 0 where
  pub auth_network : auth.network_id ≡ authority.network_id
  pub member_network : m.network_id ≡ authority.network_id
  pub digest : auth.body_digest ≡ transfer_content_digest body
  pub not_old : now ≤ auth.timestamp + window
  pub not_ahead : auth.timestamp ≤ now + window
  pub certified : MembershipCertificate.verify m authority ≡ true
  pub started : m.issued_at ≤ now
  pub unexpired : is_none_or m.expires_at (λ t. leb now t) ≡ true
  pub same_sister : auth.sister_id ≡ m.sister_id
  pub signed : verify_signature auth m.sister_public_key ≡ true

module _ ⦃w : Wire⦄ (auth : GatewayAuth) (body : Bytes) (m : MembershipCertificate)
    (authority : NetworkAuthority) (now window : ℕ) where
  pub accepted_meets :
      {key : SisterPublicKey}
      → verify_request auth body m authority now window ≡ ok key
      → Accepts auth body m authority now window
  unfolding verify_request MembershipCertificate.is_valid_at
  accepted_meets h = ground arith

  pub accepted-key :
      {key : SisterPublicKey}
      → verify_request auth body m authority now window ≡ ok key
      → key ≡ m.sister_public_key
  unfolding verify_request MembershipCertificate.is_valid_at
  accepted-key h = ground arith

  pub meets_accepted :
      Accepts auth body m authority now window
      → verify_request auth body m authority now window ≡ ok m.sister_public_key
  unfolding verify_request MembershipCertificate.is_valid_at
  meets_accepted a = ground arith

  -- `verify_request` returns a key exactly when the request meets the description above, and the
  -- key is the certified one.
  pub verify_request_iff :
      (key : SisterPublicKey)
      → (verify_request auth body m authority now window ≡ ok key)
        ↔ (Accepts auth body m authority now window × (key ≡ m.sister_public_key))
  verify_request_iff key =
      (λ h. (accepted_meets h, accepted-key h), λ h. rw h.1 (meets_accepted h.0))
