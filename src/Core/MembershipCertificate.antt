-- ===== src/Core/MembershipCertificate.antt =====
-- crates/misaka-core/src/identity.rs: impl MembershipCertificate.
use misaka.Prelude.{ℕ, Bytes, Bool, Option, ◌&&◌, ◌==◌, leb, is_none_or}
use misaka.Core.Types.{
  NetworkAuthority, AuthorityKeyPair, SisterPublicKey, MembershipCertificate,
  MembershipCertificateUnsigned, network_id_eq,
}
use misaka.Core.Wire.{Wire}
use misaka.Core.Keys.{zero_signature, authority_verify, authority_sign}

unfoldable pub unsigned : MembershipCertificate → MembershipCertificateUnsigned
unsigned c = record {
  network_id = c.network_id;
  sister_public_key = c.sister_public_key;
  sister_id = c.sister_id;
  issued_at = c.issued_at;
  expires_at = c.expires_at;
  serial = c.serial;
}

module _ ⦃w : Wire⦄ where
  unfoldable pub signing_bytes : MembershipCertificate → Bytes
  unfolding unsigned
  signing_bytes c = w.membership_bytes (unsigned c)

  unfoldable pub issue :
      NetworkAuthority
      → AuthorityKeyPair
      → SisterPublicKey
      → ℕ
      → ℕ
      → Option ℕ
      → ℕ
      → MembershipCertificate
  unfolding authority_sign
  issue authority key sister_public_key sister_id issued_at expires_at serial =
      let c : MembershipCertificate = record {
        network_id = authority.network_id;
        sister_public_key = sister_public_key;
        sister_id = record { number = sister_id };
        issued_at = issued_at;
        expires_at = expires_at;
        serial = serial;
        authority_signature = record { signature_bytes = zero_signature };
      } in
      record c { authority_signature = authority_sign key (signing_bytes c) }

  unfoldable pub verify : MembershipCertificate → NetworkAuthority → Bool
  verify c authority =
      c.network_id == authority.network_id
      && authority_verify authority.authority_public_key (signing_bytes c) c.authority_signature

unfoldable pub is_valid_at : MembershipCertificate → ℕ → Bool
is_valid_at c timestamp =
    leb c.issued_at timestamp && is_none_or c.expires_at (λ expires_at. leb timestamp expires_at)
