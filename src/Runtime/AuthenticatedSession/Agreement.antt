-- ===== src/Runtime/AuthenticatedSession/Agreement.antt =====
-- crates/misaka-runtime/src/authenticated_session.rs: the two ends agree.
use misaka.Prelude.{ℕ, ◌≤◌, ◌≡◌, refl, Bytes, Text, true, false, Option, some, length, arith}
use misaka.Prelude.Result.{ok}
use misaka.Core.Types.{
  MembershipKind, SisterPublicKey, AuthenticatedClientHello, AuthenticatedServerHello,
}
use misaka.Core.AuthenticatedClientHello
use misaka.Core.MembershipCertificate
use misaka.Core.Keys.{sister_public_key}
use misaka.Core.Wire.{Wire, SignsSoundly}
use misaka.Runtime.Frame.{write_frame, read_frame}
use misaka.Runtime.Frame.Read.{write_frame-fits, read_frame-write_frame}
use misaka.Runtime.AuthenticatedSession.{
  AuthenticatedSessionConfig, SessionWire, max_auth_frame_length, membership_is_revoked,
  endpoint_matches_binding, validate_local, validate_client, validate_server,
}
use misaka.Runtime.AuthenticatedSession.Handshake.{
  client_hello, server_hello, open_client, close_client, peer_of, authenticate_server, handshake,
}
use misaka.Runtime.AuthenticatedSession.Established.{client_hello-valid, server_hello-valid}

module _ ⦃w : Wire⦄ ⦃net : SessionWire⦄ where
  open_client_lem :
      (local : AuthenticatedSessionConfig) (nonce sent : Bytes) (now : ℕ)
      → validate_local local now ≡ ok tt
      → write_frame max_auth_frame_length net.client_codec (client_hello local nonce) ≡ ok sent
      → open_client local nonce now ≡ ok (client_hello local nonce, sent)
  unfolding open_client
  open_client_lem local nonce sent now l h = rw (l, h) refl

  authenticate_server_lem :
      (local : AuthenticatedSessionConfig) (stream nonce rest sent : Bytes)
      (hello : AuthenticatedClientHello) (remote : Option Text) (now later : ℕ)
      → validate_local local now ≡ ok tt
      → read_frame max_auth_frame_length net.client_codec stream ≡ ok (hello, rest)
      → validate_client local hello remote later ≡ ok tt
      → write_frame max_auth_frame_length net.server_codec (server_hello local hello.nonce nonce)
        ≡ ok sent
      → authenticate_server local stream nonce remote now later ≡ ok (peer_of hello, sent, rest)
  unfolding authenticate_server
  authenticate_server_lem local stream nonce rest sent hello remote now later l h v a =
      rw (l, h, v, a) refl

  close_client_lem :
      (local : AuthenticatedSessionConfig) (hello : AuthenticatedClientHello) (stream rest : Bytes)
      (answer : AuthenticatedServerHello) (id : Option ℕ) (key : Option SisterPublicKey)
      (remote : Option Text) (now : ℕ)
      → read_frame max_auth_frame_length net.server_codec stream ≡ ok (answer, rest)
      → validate_server local hello answer id key remote now ≡ ok tt
      → close_client local hello stream id key remote now ≡ ok rest
  unfolding close_client
  close_client_lem local hello stream rest answer id key remote now h v = rw (h, v) refl

module _ ⦃w : Wire⦄ ⦃net : SessionWire⦄ (s : SignsSoundly w)
    (client server : AuthenticatedSessionConfig) where
  -- Two Sisters of one network and authority, each with consistent local material, complete the
  -- handshake, and the server then knows the client's Sister, key and serial; each end reads on with
  -- what the other sent after its message. This is when each membership is current where the other
  -- end checks it, neither is revoked there, each binding is of the stream's remote endpoint, the
  -- client expects the server's own Sister and key, the two messages fit in a frame, and the codecs
  -- read them back.
  pub handshake_established :
      (nonce nonce' early late : Bytes) (of_client of_server : Option Text)
      (opened accepted checked closed : ℕ)
      → client.network_id ≡ server.network_id
      → client.authority ≡ server.authority
      → validate_local client opened ≡ ok tt
      → validate_local server accepted ≡ ok tt
      → MembershipCertificate.is_valid_at client.membership_certificate checked ≡ true
      → MembershipCertificate.is_valid_at server.membership_certificate closed ≡ true
      → membership_is_revoked server MembershipKind.sister client.membership_certificate.serial
        ≡ ok false
      → membership_is_revoked client MembershipKind.sister server.membership_certificate.serial
        ≡ ok false
      → endpoint_matches_binding of_client client.transport_binding.iroh_endpoint_id ≡ true
      → endpoint_matches_binding of_server server.transport_binding.iroh_endpoint_id ≡ true
      → length (net.client_codec.encode (client_hello client nonce)) ≤ max_auth_frame_length
      → length (net.server_codec.encode (server_hello server nonce nonce')) ≤ max_auth_frame_length
      → net.client_codec.decode (net.client_codec.encode (client_hello client nonce))
        ≡ some (client_hello client nonce)
      → net.server_codec.decode (net.server_codec.encode (server_hello server nonce nonce'))
        ≡ some (server_hello server nonce nonce')
      → handshake client server
          (nonce, nonce')
          (some server.sister_id, some (sister_public_key server.sister_key))
          (of_client, of_server)
          (early, late)
          (opened, accepted, checked, closed)
        ≡ ok (
          record {
            sister_id = record { number = client.sister_id };
            sister_public_key = sister_public_key client.sister_key;
            membership_serial = client.membership_certificate.serial;
          },
          early,
          late,
        )
  unfolding handshake client_hello AuthenticatedClientHello.sign
  handshake_established nonce nonce' early late of_client of_server opened accepted checked closed
        network authority lc ls vc vs rc rs ec es fc fs kc ks =
      let hello = client_hello client nonce in
      let answer = server_hello server nonce nonce' in
      let sent = write_frame-fits max_auth_frame_length net.client_codec hello fc in
      let received =
        read_frame-write_frame max_auth_frame_length net.client_codec hello _ early (omega arith) kc
          sent in
      let replied = write_frame-fits max_auth_frame_length net.server_codec answer fs in
      let heard =
        read_frame-write_frame max_auth_frame_length net.server_codec answer _ late (omega arith) ks
          replied in
      let known =
        client_hello-valid s client server opened network authority nonce of_client checked lc vc rc
          ec in
      let trusted =
        server_hello-valid s client server accepted network authority hello nonce' of_server closed
          ls vs rs es in
      rw (open_client_lem client nonce _ opened lc sent) (
        rw
          (authenticate_server_lem server _ nonce' early _ hello of_client accepted checked ls
            received known replied)
          (rw (close_client_lem client hello _ late answer _ _ of_server closed heard trusted)
            (unfold peer_of in refl)))
