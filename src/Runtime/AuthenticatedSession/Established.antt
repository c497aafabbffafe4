-- ===== src/Runtime/AuthenticatedSession/Established.antt =====
-- crates/misaka-runtime/src/authenticated_session.rs: what a handshake establishes.
use misaka.Prelude.{
  ℕ, ◌≡◌, ◌↔◌, Bytes, Text, true, false, not, Option, some, ◌==◌, nat_eq, bytes_eq, is_some_and,
  arith,
}
use misaka.Prelude.Result.{ok}
use misaka.Core.Types.{
  SisterPublicKey, MembershipKind, AuthenticatedClientHello, AuthenticatedServerHello,
  network_id_eq, sister_id_eq, sister_public_key_eq, iroh_endpoint_id_eq,
}
use misaka.Core.AuthenticatedClientHello
use misaka.Core.AuthenticatedClientHello.{auth_session_protocol_version}
use misaka.Core.AuthenticatedServerHello
use misaka.Core.MembershipCertificate
use misaka.Core.TransportBinding
use misaka.Core.Keys.{sister_public_key, sister_verify-sign}
use misaka.Core.Wire.{Wire, SignsSoundly}
use misaka.Runtime.AuthenticatedSession.{
  AuthenticatedSessionConfig, SessionWire, membership_is_revoked, endpoint_matches_binding,
  validate_local, is_unproven, validate_client, validate_server,
}
use misaka.Runtime.AuthenticatedSession.Handshake.{client_hello, server_hello}

module _ ⦃w : Wire⦄ ⦃net : SessionWire⦄ where
  -- The server accepts a hello exactly when it is of this protocol's version and of the server's
  -- network; its Sister, key and network are those of the membership and of the transport binding; the
  -- hello and the binding are signed by that key and the membership by the authority; the membership
  -- is current and not revoked; and the binding is of the stream's remote endpoint.
  pub validate_client_iff :
      (local : AuthenticatedSessionConfig) (client : AuthenticatedClientHello)
      (remote : Option Text) (now : ℕ)
      → (validate_client local client remote now ≡ ok tt) ↔ (
          (client.protocol_version ≡ auth_session_protocol_version)
          × (client.network_id ≡ local.network_id)
          × (client.sister_public_key ≡ client.membership_certificate.sister_public_key)
          × (client.sister_id ≡ client.membership_certificate.sister_id)
          × (client.membership_certificate.network_id ≡ local.network_id)
          × (client.transport_binding.network_id ≡ local.network_id)
          × (client.transport_binding.sister_id ≡ client.sister_id)
          × (client.transport_binding.sister_public_key ≡ client.sister_public_key)
          × (AuthenticatedClientHello.verify_signature client ≡ true)
          × (MembershipCertificate.verify client.membership_certificate local.authority ≡ true)
          × (MembershipCertificate.is_valid_at client.membership_certificate now ≡ true)
          × (TransportBinding.verify client.transport_binding ≡ true)
          × (membership_is_revoked local MembershipKind.sister client.membership_certificate.serial
              ≡ ok false)
          × (endpoint_matches_binding remote client.transport_binding.iroh_endpoint_id ≡ true))
  unfolding validate_client
  validate_client_iff local client remote now = (λ h. ground arith, λ h. ground arith)

  pub is_unproven_iff :
      (local : AuthenticatedSessionConfig) (server : AuthenticatedServerHello) (now : ℕ)
      → (is_unproven local server now ≡ false) ↔ (
          (server.sister_public_key ≡ server.membership_certificate.sister_public_key)
          × (server.sister_id ≡ server.membership_certificate.sister_id)
          × (server.membership_certificate.network_id ≡ local.network_id)
          × (server.transport_binding.network_id ≡ local.network_id)
          × (server.transport_binding.sister_id ≡ server.sister_id)
          × (server.transport_binding.sister_public_key ≡ server.sister_public_key)
          × (AuthenticatedServerHello.verify_signature server ≡ true)
          × (MembershipCertificate.verify server.membership_certificate local.authority ≡ true)
          × (MembershipCertificate.is_valid_at server.membership_certificate now ≡ true)
          × (TransportBinding.verify server.transport_binding ≡ true))
  unfolding is_unproven
  is_unproven_iff local server now = (λ h. ground arith, λ h. ground arith)

  pub validate_server_iff :
      (local : AuthenticatedSessionConfig) (client : AuthenticatedClientHello)
      (server : AuthenticatedServerHello) (expected_sister_id : Option ℕ)
      (expected_key : Option SisterPublicKey) (remote : Option Text) (now : ℕ)
      → (validate_server local client server expected_sister_id expected_key remote now ≡ ok tt) ↔ (
          (server.protocol_version ≡ auth_session_protocol_version)
          × (server.network_id ≡ local.network_id)
          × (server.client_nonce ≡ client.nonce)
          × (is_some_and expected_sister_id (λ id. not (server.sister_id.number == id)) ≡ false)
          × (is_some_and expected_key (λ key. not (server.sister_public_key == key)) ≡ false)
          × (is_unproven local server now ≡ false)
          × (membership_is_revoked local MembershipKind.sister server.membership_certificate.serial
              ≡ ok false)
          × (endpoint_matches_binding remote server.transport_binding.iroh_endpoint_id ≡ true))
  unfolding validate_server
  validate_server_iff local client server expected_sister_id expected_key remote now =
      (λ h. ground arith, λ h. ground arith)

  module _ (s : SignsSoundly w) where
    client_hello-verify :
        (local : AuthenticatedSessionConfig) (nonce : Bytes)
        → AuthenticatedClientHello.verify_signature (client_hello local nonce) ≡ true
    unfolding client_hello AuthenticatedClientHello.sign AuthenticatedClientHello.verify_signature
        AuthenticatedClientHello.signing_bytes
    client_hello-verify local nonce =
        sister_verify-sign s local.sister_key
          (w.client_hello_bytes (AuthenticatedClientHello.unsigned (client_hello local nonce)))

    server_hello-verify :
        (local : AuthenticatedSessionConfig) (client_nonce nonce : Bytes)
        → AuthenticatedServerHello.verify_signature (server_hello local client_nonce nonce) ≡ true
    unfolding server_hello AuthenticatedServerHello.sign AuthenticatedServerHello.verify_signature
        AuthenticatedServerHello.signing_bytes
    server_hello-verify local client_nonce nonce = sister_verify-sign s local.sister_key (
        w.server_hello_bytes
          (AuthenticatedServerHello.unsigned (server_hello local client_nonce nonce)))

    module _ (client server : AuthenticatedSessionConfig) (started : ℕ)
        (network : client.network_id ≡ server.network_id)
        (authority : client.authority ≡ server.authority) where
      pub client_hello-valid :
          (nonce : Bytes) (remote : Option Text) (now : ℕ)
          → validate_local client started ≡ ok tt
          → MembershipCertificate.is_valid_at client.membership_certificate now ≡ true
          → membership_is_revoked server MembershipKind.sister client.membership_certificate.serial
            ≡ ok false
          → endpoint_matches_binding remote client.transport_binding.iroh_endpoint_id ≡ true
          → validate_client server (client_hello client nonce) remote now ≡ ok tt
      unfolding validate_local client_hello AuthenticatedClientHello.sign
      client_hello-valid nonce remote now l v r e =
          (validate_client_iff server (client_hello client nonce) remote now).1
            (ground (arith, l, client_hello-verify client nonce))

      pub server_hello-valid :
          (hello : AuthenticatedClientHello) (nonce : Bytes) (remote : Option Text) (now : ℕ)
          → validate_local server started ≡ ok tt
          → MembershipCertificate.is_valid_at server.membership_certificate now ≡ true
          → membership_is_revoked client MembershipKind.sister server.membership_certificate.serial
            ≡ ok false
          → endpoint_matches_binding remote server.transport_binding.iroh_endpoint_id ≡ true
          → validate_server client hello
              (server_hello server hello.nonce nonce)
              (some server.sister_id)
              (some (sister_public_key server.sister_key))
              remote
              now
            ≡ ok tt
      unfolding validate_local server_hello AuthenticatedServerHello.sign
      server_hello-valid hello nonce remote now l v r e =
          let answer = server_hello server hello.nonce nonce in
          let proven : is_unproven client answer now ≡ false =
            (is_unproven_iff client answer now).1
              (ground (arith, l, server_hello-verify server hello.nonce nonce)) in
          (validate_server_iff client hello answer (some server.sister_id)
              (some (sister_public_key server.sister_key)) remote now).1
            (ground (arith, l, proven))
