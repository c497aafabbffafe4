-- ===== src/Core/RevocationRecord.antt =====
-- crates/misaka-core/src/identity.rs: impl RevocationRecord.
use misaka.Prelude.{ℕ, Bytes, Text, Bool, ◌&&◌, ◌==◌}
use misaka.Core.Types.{
  NetworkAuthority, AuthorityKeyPair, MembershipKind, RevocationRecord, RevocationRecordUnsigned,
  network_id_eq,
}
use misaka.Core.Wire.{Wire}
use misaka.Core.Keys.{zero_signature, authority_verify, authority_sign}

unfoldable pub unsigned : RevocationRecord → RevocationRecordUnsigned
unsigned c = record {
  network_id = c.network_id;
  membership_kind = c.membership_kind;
  membership_serial = c.membership_serial;
  revoked_at = c.revoked_at;
  reason = c.reason;
}

module _ ⦃w : Wire⦄ where
  unfoldable pub signing_bytes : RevocationRecord → Bytes
  unfolding unsigned
  signing_bytes c = w.revocation_bytes (unsigned c)

  unfoldable pub issue :
      NetworkAuthority → AuthorityKeyPair → MembershipKind → ℕ → ℕ → Text → RevocationRecord
  unfolding authority_sign
  issue authority key membership_kind membership_serial revoked_at reason =
      let c : RevocationRecord = record {
        network_id = authority.network_id;
        membership_kind = membership_kind;
        membership_serial = membership_serial;
        revoked_at = revoked_at;
        reason = reason;
        authority_signature = record { signature_bytes = zero_signature };
      } in
      record c { authority_signature = authority_sign key (signing_bytes c) }

  unfoldable pub verify : RevocationRecord → NetworkAuthority → Bool
  verify c authority =
      c.network_id == authority.network_id
      && authority_verify authority.authority_public_key (signing_bytes c) c.authority_signature
