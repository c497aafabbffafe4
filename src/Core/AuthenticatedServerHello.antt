-- ===== src/Core/AuthenticatedServerHello.antt =====
-- crates/misaka-core/src/protocol.rs: impl AuthenticatedServerHello.
use misaka.Prelude.{ℕ, Bytes, Bool}
use misaka.Core.Types.{
  NetworkId, SisterPublicKey, SisterKeyPair, MembershipCertificate, TransportBinding,
  AuthenticatedServerHello, AuthenticatedServerHelloUnsigned,
}
use misaka.Core.Wire.{Wire}
use misaka.Core.Keys.{zero_signature, sister_verify, sister_sign}
use misaka.Core.AuthenticatedClientHello.{auth_session_protocol_version}

unfoldable pub unsigned : AuthenticatedServerHello → AuthenticatedServerHelloUnsigned
unsigned c = record {
  protocol_version = c.protocol_version;
  network_id = c.network_id;
  sister_id = c.sister_id;
  sister_public_key = c.sister_public_key;
  membership_certificate = c.membership_certificate;
  transport_binding = c.transport_binding;
  client_nonce = c.client_nonce;
  nonce = c.nonce;
}

module _ ⦃w : Wire⦄ where
  unfoldable pub signing_bytes : AuthenticatedServerHello → Bytes
  unfolding unsigned
  signing_bytes c = w.server_hello_bytes (unsigned c)

  unfoldable pub sign :
      NetworkId
      → ℕ
      → SisterPublicKey
      → MembershipCertificate
      → TransportBinding
      → Bytes
      → Bytes
      → SisterKeyPair
      → AuthenticatedServerHello
  unfolding sister_sign
  sign network_id sister_id sister_public_key membership_certificate transport_binding client_nonce
        nonce key =
      let hello : AuthenticatedServerHello = record {
        protocol_version = auth_session_protocol_version;
        network_id = network_id;
        sister_id = record { number = sister_id };
        sister_public_key = sister_public_key;
        membership_certificate = membership_certificate;
        transport_binding = transport_binding;
        client_nonce = client_nonce;
        nonce = nonce;
        signature = record { signature_bytes = zero_signature };
      } in
      record hello { signature = sister_sign key (signing_bytes hello) }

  unfoldable pub verify_signature : AuthenticatedServerHello → Bool
  verify_signature c = sister_verify c.sister_public_key (signing_bytes c) c.signature
