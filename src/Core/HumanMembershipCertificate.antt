-- ===== src/Core/HumanMembershipCertificate.antt =====
-- crates/misaka-core/src/identity.rs: impl HumanMembershipCertificate.
use misaka.Prelude.{ℕ, Bytes, Bool, Option, ◌&&◌, ◌==◌, leb, is_none_or}
use misaka.Core.Types.{
  NetworkAuthority, AuthorityKeyPair, HumanIdentity, Role, HumanMembershipCertificate,
  HumanMembershipCertificateUnsigned, network_id_eq,
}
use misaka.Core.Wire.{Wire}
use misaka.Core.Keys.{zero_signature, authority_verify, authority_sign}

unfoldable pub unsigned : HumanMembershipCertificate → HumanMembershipCertificateUnsigned
unsigned c = record {
  network_id = c.network_id;
  human = c.human;
  role = c.role;
  issued_at = c.issued_at;
  expires_at = c.expires_at;
  serial = c.serial;
}

module _ ⦃w : Wire⦄ where
  unfoldable pub signing_bytes : HumanMembershipCertificate → Bytes
  unfolding unsigned
  signing_bytes c = w.human_membership_bytes (unsigned c)

  unfoldable pub issue :
      NetworkAuthority
      → AuthorityKeyPair
      → HumanIdentity
      → Role
      → ℕ
      → Option ℕ
      → ℕ
      → HumanMembershipCertificate
  unfolding authority_sign
  issue authority key human role issued_at expires_at serial =
      let c : HumanMembershipCertificate = record {
        network_id = authority.network_id;
        human = human;
        role = role;
        issued_at = issued_at;
        expires_at = expires_at;
        serial = serial;
        authority_signature = record { signature_bytes = zero_signature };
      } in
      record c { authority_signature = authority_sign key (signing_bytes c) }

  unfoldable pub verify : HumanMembershipCertificate → NetworkAuthority → ℕ → Bool
  verify c authority now =
      c.network_id == authority.network_id
      && is_none_or c.expires_at (λ expires. leb c.issued_at expires)
      && leb c.issued_at now
      && is_none_or c.expires_at (λ expires. leb now expires)
      && authority_verify authority.authority_public_key (signing_bytes c) c.authority_signature
