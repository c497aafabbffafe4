-- ===== src/Core/NetworkInvite.antt =====
-- crates/misaka-core/src/identity.rs: impl NetworkInvite.
use misaka.Prelude.{ℕ, Bytes, Bool, Option, List, ◌&&◌, ◌==◌, leb, all, is_none_or}
use misaka.Core.Types.{
  NetworkAuthority, AuthorityKeyPair, MembershipCertificate, PeerRecord, NetworkInvite,
  NetworkInviteUnsigned, network_id_eq,
}
use misaka.Core.PeerRecord
use misaka.Core.MembershipCertificate
use misaka.Core.Wire.{Wire}
use misaka.Core.Keys.{zero_signature, authority_verify, authority_sign}

unfoldable pub unsigned : NetworkInvite → NetworkInviteUnsigned
unsigned c = record {
  network_id = c.network_id;
  authority = c.authority;
  bootstrap_records = c.bootstrap_records;
  issued_at = c.issued_at;
  expires_at = c.expires_at;
  invite_id = c.invite_id;
  membership = c.membership;
}

module _ ⦃w : Wire⦄ where
  unfoldable pub signing_bytes : NetworkInvite → Bytes
  unfolding unsigned
  signing_bytes c = w.network_invite_bytes (unsigned c)

  unfoldable pub issue :
      NetworkAuthority
      → AuthorityKeyPair
      → List PeerRecord
      → ℕ
      → ℕ
      → Bytes
      → Option MembershipCertificate
      → NetworkInvite
  unfolding authority_sign
  issue authority key bootstrap_records issued_at expires_at invite_id membership =
      let c : NetworkInvite = record {
        network_id = authority.network_id;
        authority = authority;
        bootstrap_records = bootstrap_records;
        issued_at = issued_at;
        expires_at = expires_at;
        invite_id = invite_id;
        membership = membership;
        authority_signature = record { signature_bytes = zero_signature };
      } in
      record c { authority_signature = authority_sign key (signing_bytes c) }

  unfoldable pub verify : NetworkInvite → ℕ → Bool
  verify c now =
      c.network_id == c.authority.network_id
      && leb c.issued_at c.expires_at
      && leb c.issued_at now
      && leb now c.expires_at
      && authority_verify c.authority.authority_public_key (signing_bytes c) c.authority_signature
      && all (λ r. r.network_id == c.network_id && PeerRecord.verify r) c.bootstrap_records
      && is_none_or c.membership (λ m.
        m.network_id == c.network_id
        && MembershipCertificate.verify m c.authority
        && MembershipCertificate.is_valid_at m now)
