-- ===== src/Core/CommandAuthorization.antt =====
-- crates/misaka-core/src/identity.rs: impl CommandAuthorization.
use misaka.Prelude.{ℕ, Bytes, Text, Bool, Option, List, ◌&&◌, ◌==◌, leb}
use misaka.Core.Types.{
  NetworkId, NetworkAuthority, HumanKeyPair, HumanIdentity, HumanMembershipCertificate, Role,
  Permission, Principal, CommandAuthorization, CommandAuthorizationUnsigned, network_id_eq, role_eq,
  human_identity_eq,
}
use misaka.Core.HumanMembershipCertificate
use misaka.Core.Role
use misaka.Core.Wire.{Wire}
use misaka.Core.Keys.{zero_signature, human_verify, human_sign}

unfoldable pub unsigned : CommandAuthorization → CommandAuthorizationUnsigned
unsigned c = record {
  network_id = c.network_id;
  issuer = c.issuer;
  membership = c.membership;
  role = c.role;
  permission = c.permission;
  target = c.target;
  constraints = c.constraints;
  issued_at = c.issued_at;
  expires_at = c.expires_at;
  nonce = c.nonce;
}

module _ ⦃w : Wire⦄ where
  unfoldable pub signing_bytes : CommandAuthorization → Bytes
  unfolding unsigned
  signing_bytes c = w.command_bytes (unsigned c)

  unfoldable pub issue :
      NetworkId
      → HumanIdentity
      → HumanMembershipCertificate
      → Role
      → Permission
      → Option Principal
      → List Text
      → ℕ
      → ℕ
      → Bytes
      → HumanKeyPair
      → CommandAuthorization
  unfolding human_sign
  issue network_id issuer membership role permission target constraints issued_at expires_at nonce
        key =
      let c : CommandAuthorization = record {
        network_id = network_id;
        issuer = issuer;
        membership = membership;
        role = role;
        permission = permission;
        target = target;
        constraints = constraints;
        issued_at = issued_at;
        expires_at = expires_at;
        nonce = nonce;
        signature = record { signature_bytes = zero_signature };
      } in
      record c { signature = human_sign key (signing_bytes c) }

  unfoldable pub verify : CommandAuthorization → NetworkAuthority → ℕ → Bool
  verify c authority now =
      c.network_id == authority.network_id
      && leb c.issued_at c.expires_at
      && leb c.issued_at now
      && leb now c.expires_at
      && Role.allows c.role c.permission
      && c.membership.network_id == c.network_id
      && c.membership.role == c.role
      && c.membership.human == c.issuer
      && HumanMembershipCertificate.verify c.membership authority now
      && human_verify c.issuer.public_key (signing_bytes c) c.signature
