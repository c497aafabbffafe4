-- ===== src/Core/AuthenticatedClientHello.antt =====
-- crates/misaka-core/src/protocol.rs: impl AuthenticatedClientHello.
use misaka.Prelude.{ℕ, Bytes, Bool}
use misaka.Core.Types.{
  NetworkId, SisterPublicKey, SisterKeyPair, MembershipCertificate, TransportBinding,
  AuthenticatedClientHello, AuthenticatedClientHelloUnsigned,
}
use misaka.Core.Wire.{Wire}
use misaka.Core.Keys.{zero_signature, sister_verify, sister_sign}

-- AUTH_SESSION_PROTOCOL_VERSION
abbrev pub auth_session_protocol_version : ℕ
auth_session_protocol_version = 1

unfoldable pub unsigned : AuthenticatedClientHello → AuthenticatedClientHelloUnsigned
unsigned c = record {
  protocol_version = c.protocol_version;
  network_id = c.network_id;
  sister_id = c.sister_id;
  sister_public_key = c.sister_public_key;
  membership_certificate = c.membership_certificate;
  transport_binding = c.transport_binding;
  nonce = c.nonce;
}

module _ ⦃w : Wire⦄ where
  unfoldable pub signing_bytes : AuthenticatedClientHello → Bytes
  unfolding unsigned
  signing_bytes c = w.client_hello_bytes (unsigned c)

  unfoldable pub sign :
      NetworkId
      → ℕ
      → SisterPublicKey
      → MembershipCertificate
      → TransportBinding
      → Bytes
      → SisterKeyPair
      → AuthenticatedClientHello
  unfolding sister_sign
  sign network_id sister_id sister_public_key membership_certificate transport_binding nonce key =
      let hello : AuthenticatedClientHello = record {
        protocol_version = auth_session_protocol_version;
        network_id = network_id;
        sister_id = record { number = sister_id };
        sister_public_key = sister_public_key;
        membership_certificate = membership_certificate;
        transport_binding = transport_binding;
        nonce = nonce;
        signature = record { signature_bytes = zero_signature };
      } in
      record hello { signature = sister_sign key (signing_bytes hello) }

  unfoldable pub verify_signature : AuthenticatedClientHello → Bool
  verify_signature c = sister_verify c.sister_public_key (signing_bytes c) c.signature
