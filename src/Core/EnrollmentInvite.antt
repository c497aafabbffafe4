-- ===== src/Core/EnrollmentInvite.antt =====
-- crates/misaka-core/src/enrollment.rs: impl EnrollmentInvite, but for the code (Core/InviteCode).
use misaka.Prelude.{ℕ, Bytes, Bool, ◌&&◌, ◌==◌, nat_eq, leb, ltb}
use misaka.Core.Types.{
  NetworkId, NetworkAuthority, AuthorityKeyPair, PeerRecord, EnrollmentInvite,
  EnrollmentInviteUnsigned, network_id_eq,
}
use misaka.Core.PeerRecord
use misaka.Core.Wire.{Wire}
use misaka.Core.Keys.{zero_signature, authority_verify, authority_sign}

-- ENROLLMENT_VERSION
abbrev pub enrollment_version : ℕ
enrollment_version = 1

unfoldable pub unsigned : EnrollmentInvite → EnrollmentInviteUnsigned
unsigned c = record {
  version = c.version;
  network_id = c.network_id;
  authority = c.authority;
  issued_at = c.issued_at;
  expires_at = c.expires_at;
  invite_nonce = c.invite_nonce;
  locator = c.locator;
}

unfoldable pub is_expired : EnrollmentInvite → ℕ → Bool
is_expired c now = ltb c.expires_at now

unfoldable pub matches_network : EnrollmentInvite → NetworkId → Bool
matches_network c network_id = c.network_id == network_id

module _ ⦃w : Wire⦄ where
  unfoldable pub signing_bytes : EnrollmentInvite → Bytes
  unfolding unsigned
  signing_bytes c = w.enrollment_invite_bytes (unsigned c)

  unfoldable pub issue :
      NetworkAuthority → AuthorityKeyPair → ℕ → ℕ → Bytes → PeerRecord → EnrollmentInvite
  unfolding authority_sign
  issue authority key issued_at expires_at invite_nonce locator =
      let c : EnrollmentInvite = record {
        version = enrollment_version;
        network_id = authority.network_id;
        authority = authority;
        issued_at = issued_at;
        expires_at = expires_at;
        invite_nonce = invite_nonce;
        locator = locator;
        authority_signature = record { signature_bytes = zero_signature };
      } in
      record c { authority_signature = authority_sign key (signing_bytes c) }

  unfoldable pub verify : EnrollmentInvite → ℕ → Bool
  verify c now =
      c.version == enrollment_version
      && c.network_id == c.authority.network_id
      && leb c.issued_at c.expires_at
      && leb c.issued_at now
      && leb now c.expires_at
      && authority_verify c.authority.authority_public_key (signing_bytes c) c.authority_signature
      && c.locator.network_id == c.network_id
      && PeerRecord.verify c.locator

  unfoldable pub digest : EnrollmentInvite → Bytes
  digest c = w.sha256 (signing_bytes c)
