-- ===== src/Runtime/AuthenticatedSession/Handshake.antt =====
-- crates/misaka-runtime/src/authenticated_session.rs: the two ends of the handshake, over streams of
-- bytes.
use misaka.Prelude.{ℕ, Bytes, Text, Option, ◌++◌}
use misaka.Prelude.Result.{Result, ok, ◌>>=◌, ◌>>◌}
use misaka.Core.Types.{SisterPublicKey, AuthenticatedClientHello, AuthenticatedServerHello}
use misaka.Core.AuthenticatedClientHello
use misaka.Core.AuthenticatedServerHello
use misaka.Core.Keys.{sister_public_key}
use misaka.Core.Wire.{Wire}
use misaka.Runtime.Frame.{write_frame, read_frame}
use misaka.Runtime.AuthenticatedSession.{
  AuthenticatedSessionConfig, AuthenticatedSessionError, AuthenticatedPeer, SessionWire, from_frame,
  max_auth_frame_length, validate_local, validate_client, validate_server,
}

module _ ⦃w : Wire⦄ ⦃net : SessionWire⦄ where
  unfoldable pub client_hello : AuthenticatedSessionConfig → Bytes → AuthenticatedClientHello
  client_hello local nonce =
      AuthenticatedClientHello.sign local.network_id local.sister_id
        (sister_public_key local.sister_key) local.membership_certificate local.transport_binding
        nonce local.sister_key

  unfoldable pub server_hello :
      AuthenticatedSessionConfig → Bytes → Bytes → AuthenticatedServerHello
  server_hello local client_nonce nonce =
      AuthenticatedServerHello.sign local.network_id local.sister_id
        (sister_public_key local.sister_key) local.membership_certificate local.transport_binding
        client_nonce nonce local.sister_key

  -- authenticate_client up to its read: the hello, and the frame that carries it
  unfoldable pub open_client :
      AuthenticatedSessionConfig
      → Bytes
      → ℕ
      → Result AuthenticatedSessionError (AuthenticatedClientHello × Bytes)
  unfolding client_hello
  open_client local nonce now =
      let hello = client_hello local nonce in
      validate_local local now
      >> (from_frame (write_frame max_auth_frame_length net.client_codec hello) >>= λ sent.
          ok (hello, sent))

  -- authenticate_client from its read on, which hands on the unread stream
  unfoldable pub close_client :
      AuthenticatedSessionConfig
      → AuthenticatedClientHello
      → Bytes
      → Option ℕ
      → Option SisterPublicKey
      → Option Text
      → ℕ
      → Result AuthenticatedSessionError Bytes
  close_client local client stream expected_sister_id expected_key remote now =
      from_frame (read_frame max_auth_frame_length net.server_codec stream) >>= λ (server, rest).
      validate_server local client server expected_sister_id expected_key remote now >> ok rest

  unfoldable pub peer_of : AuthenticatedClientHello → AuthenticatedPeer
  peer_of client = record {
    sister_id = client.sister_id;
    sister_public_key = client.sister_public_key;
    membership_serial = client.membership_certificate.serial;
  }

  unfoldable pub answer_client :
      AuthenticatedSessionConfig
      → Bytes
      → Option Text
      → ℕ
      → AuthenticatedClientHello × Bytes
      → Result AuthenticatedSessionError (AuthenticatedPeer × Bytes × Bytes)
  unfolding peer_of server_hello
  answer_client local nonce remote now (client, rest) =
      validate_client local client remote now
      >> (from_frame (
            write_frame max_auth_frame_length net.server_codec
              (server_hello local client.nonce nonce))
          >>= λ sent. ok (peer_of client, sent, rest))

  -- The peer, the frame that answers it, and the unread stream; the clock is read once for the local
  -- material and once for the hello.
  unfoldable pub authenticate_server :
      AuthenticatedSessionConfig
      → Bytes
      → Bytes
      → Option Text
      → ℕ
      → ℕ
      → Result AuthenticatedSessionError (AuthenticatedPeer × Bytes × Bytes)
  unfolding answer_client
  authenticate_server local stream nonce remote now later =
      validate_local local now
      >> (from_frame (read_frame max_auth_frame_length net.client_codec stream)
          >>= answer_client local nonce remote later)

  -- Both ends on one stream, where the client sends `early` after its hello and the server `late` after
  -- its answer: the peer that the server knows, and what each end reads on.
  unfoldable pub handshake :
      AuthenticatedSessionConfig
      → AuthenticatedSessionConfig
      → Bytes × Bytes
      → Option ℕ × Option SisterPublicKey
      → Option Text × Option Text
      → Bytes × Bytes
      → ℕ × ℕ × ℕ × ℕ
      → Result AuthenticatedSessionError (AuthenticatedPeer × Bytes × Bytes)
  handshake client server (nonce, nonce') (expected_sister_id, expected_key) (of_client, of_server)
        (early, late) (opened, accepted, checked, closed) =
      open_client client nonce opened >>= λ (hello, sent).
      authenticate_server server (sent ++ early) nonce' of_client accepted checked
      >>= λ (peer, answer, rest).
          close_client client hello (answer ++ late) expected_sister_id expected_key of_server
            closed
          >>= λ left. ok (peer, rest, left)
