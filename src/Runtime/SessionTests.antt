-- ===== src/Runtime/SessionTests.antt =====
-- crates/misaka-runtime: the theorems on frames and authenticated sessions at concrete data.
use misaka.Prelude.{
  ℕ, ◌≡◌, refl, Bytes, Text, true, false, Option, some, none, [], ◌∷◌, ◌++◌, codes, strip_prefix,
  arith,
}
use misaka.Prelude.Result.{ok}
use misaka.Core.Types.{
  SisterKeyPair, SisterPublicKey, MembershipKind, AuthenticatedClientHello,
  AuthenticatedServerHello, IrohEndpointId-discrete,
}
use misaka.Core.MembershipCertificate
use misaka.Core.TransportBinding
use misaka.Core.AuthenticatedClientHello
use misaka.Core.AuthenticatedServerHello
use misaka.Runtime.Frame.{Codec, frame, to_be_bytes, from_be_bytes, read_frame, write_frame}
use misaka.Runtime.Frame
use misaka.Runtime.Frame.Read.{IsTaken, read_frame-write_frame, read_frame-IsTaken}
use misaka.Runtime.AuthenticatedSession.{
  AuthenticatedSessionConfig, AuthenticatedPeer, SessionWire, max_auth_frame_length,
  membership_is_revoked, endpoint_matches_binding,
}
use misaka.Runtime.AuthenticatedSession
use misaka.Runtime.AuthenticatedSession.Handshake
use misaka.Runtime.AuthenticatedSession.Handshake.{
  client_hello, server_hello, close_client, authenticate_server, handshake,
}
use misaka.Runtime.AuthenticatedSession.Agreement.{handshake_established}
use misaka.Runtime.AuthenticatedSession.Vouched.{
  authenticate_server-IsVouched, close_client-IsVouched,
}
use misaka.Fixtures.{
  contracts, toy, toy-SignsSoundly, network, authority, authority_key, sister_key, sister_public,
  certificate, binding,
}

-- A codec that keeps the bytes, and the stream of a frame of two bytes and one byte more.
abbrev plain : Codec Bytes
plain = record { encode = λ bytes. bytes; decode = λ bytes. some bytes }

abbrev arrived : Bytes
arrived = 0 ∷ 0 ∷ 0 ∷ 2 ∷ 7 ∷ 8 ∷ 9 ∷ []

read_frame-IsTaken_example : (t : Bytes × Bytes) × IsTaken 16 plain arrived (7 ∷ 8 ∷ []) (9 ∷ []) t
unfolding read_frame
read_frame-IsTaken_example =
    read_frame-IsTaken 16 plain arrived (7 ∷ 8 ∷ []) (9 ∷ []) (unfold Frame.read_exact in refl)

read_frame-write_frame_example : read_frame 16 plain arrived ≡ ok (7 ∷ 8 ∷ [], 9 ∷ [])
read_frame-write_frame_example =
    read_frame-write_frame 16 plain (7 ∷ 8 ∷ []) (0 ∷ 0 ∷ 0 ∷ 2 ∷ 7 ∷ 8 ∷ []) (9 ∷ []) (omega arith)
      refl (unfold write_frame in refl)

-- Sister 42 of the fixtures dials Sister 7.
abbrev dialer : AuthenticatedSessionConfig
dialer = record {
  network_id = network;
  sister_id = 42;
  sister_key = sister_key;
  authority = authority;
  membership_certificate = certificate;
  transport_binding = binding;
  revocations = none;
}

abbrev answerer_key : SisterKeyPair
answerer_key = record { secret = 8 ∷ [] }

abbrev answerer_public : SisterPublicKey
answerer_public = record { key_bytes = 8 ∷ [] }

abbrev answerer : AuthenticatedSessionConfig
answerer = record {
  network_id = network;
  sister_id = 7;
  sister_key = answerer_key;
  authority = authority;
  membership_certificate =
      MembershipCertificate.issue authority authority_key answerer_public 7 100 none 8;
  transport_binding =
      TransportBinding.sign network 7 (record { endpoint_bytes = 4 ∷ [] }) 1 answerer_key;
  revocations = none;
}

abbrev hello : AuthenticatedClientHello
hello =
    AuthenticatedClientHello.sign network 42 sister_public certificate binding (1 ∷ []) sister_key

abbrev answer : AuthenticatedServerHello
answer =
    AuthenticatedServerHello.sign network 7 answerer_public
      (MembershipCertificate.issue authority authority_key answerer_public 7 100 none 8)
      (TransportBinding.sign network 7 (record { endpoint_bytes = 4 ∷ [] }) 1 answerer_key) (1 ∷ [])
      (2 ∷ []) answerer_key

-- Codecs that know these two messages, where an endpoint's text is its bytes.
instance abbrev toy_session : SessionWire
toy_session = record {
  client_codec = record { encode = λ c. c.nonce; decode = λ bytes. some hello };
  server_codec = record { encode = λ c. c.nonce; decode = λ bytes. some answer };
  parse_endpoint_id = λ text. some text;
}

abbrev endpoint_text : ℕ → Option Text
endpoint_text n = some (codes "iroh://" ++ (n ∷ []))

abbrev known : AuthenticatedPeer
known = record {
  sister_id = record { number = 42 };
  sister_public_key = sister_public;
  membership_serial = 7;
}

-- What a run of the handshake computes with.
unfoldable sessions : Unit {0}
unfolding contracts IrohEndpointId-discrete strip_prefix AuthenticatedClientHello.sign
    AuthenticatedClientHello.signing_bytes AuthenticatedClientHello.verify_signature
    AuthenticatedServerHello.sign AuthenticatedServerHello.signing_bytes
    AuthenticatedServerHello.verify_signature AuthenticatedSession.validate_local
    AuthenticatedSession.validate_client AuthenticatedSession.is_unproven
    AuthenticatedSession.validate_server membership_is_revoked endpoint_matches_binding
    Frame.read_exact Frame.write_frame Frame.read_frame Handshake.open_client Handshake.close_client
    Handshake.authenticate_server
sessions = tt

authenticated :
    authenticate_server answerer (0 ∷ 0 ∷ 0 ∷ 1 ∷ 1 ∷ 5 ∷ []) (2 ∷ []) (endpoint_text 3) 500 501
    ≡ ok (known, 0 ∷ 0 ∷ 0 ∷ 1 ∷ 2 ∷ [], 5 ∷ [])
unfolding sessions
authenticated = refl

authenticate_server-IsVouched_example :
    (c : AuthenticatedClientHello) × (read_frame max_auth_frame_length toy_session.client_codec
        (0 ∷ 0 ∷ 0 ∷ 1 ∷ 1 ∷ 5 ∷ [])
      ≡ ok (c, 5 ∷ []))
    × ((c.sister_public_key ≡ sister_public)
        × (AuthenticatedClientHello.verify_signature c ≡ true)
        × (c.membership_certificate.sister_public_key ≡ sister_public)
        × (c.membership_certificate.sister_id ≡ known.sister_id)
        × (c.membership_certificate.serial ≡ 7)
        × (MembershipCertificate.verify c.membership_certificate authority ≡ true)
        × (MembershipCertificate.is_valid_at c.membership_certificate 501 ≡ true)
        × (membership_is_revoked answerer MembershipKind.sister 7 ≡ ok false)
        × (c.transport_binding.sister_public_key ≡ sister_public)
        × (TransportBinding.verify c.transport_binding ≡ true)
        × (endpoint_matches_binding (endpoint_text 3) c.transport_binding.iroh_endpoint_id ≡ true))
authenticate_server-IsVouched_example =
    authenticate_server-IsVouched answerer (0 ∷ 0 ∷ 0 ∷ 1 ∷ 1 ∷ 5 ∷ []) (2 ∷ []) (endpoint_text 3)
      500 501 known (0 ∷ 0 ∷ 0 ∷ 1 ∷ 2 ∷ []) (5 ∷ []) authenticated

closed :
    close_client dialer hello
      (0 ∷ 0 ∷ 0 ∷ 1 ∷ 2 ∷ 6 ∷ [])
      (some 7)
      (some answerer_public)
      (endpoint_text 4)
      501
    ≡ ok (6 ∷ [])
unfolding sessions
closed = refl

close_client-IsVouched_example :
    (a : AuthenticatedServerHello) × (read_frame max_auth_frame_length toy_session.server_codec
        (0 ∷ 0 ∷ 0 ∷ 1 ∷ 2 ∷ 6 ∷ [])
      ≡ ok (a, 6 ∷ []))
    × ((a.client_nonce ≡ hello.nonce)
        × (a.sister_public_key ≡ answerer_public)
        × (AuthenticatedServerHello.verify_signature a ≡ true)
        × (a.membership_certificate.sister_public_key ≡ answerer_public)
        × (a.membership_certificate.sister_id.number ≡ 7)
        × (MembershipCertificate.verify a.membership_certificate authority ≡ true)
        × (MembershipCertificate.is_valid_at a.membership_certificate 501 ≡ true)
        × (membership_is_revoked dialer MembershipKind.sister a.membership_certificate.serial
            ≡ ok false)
        × (a.transport_binding.sister_public_key ≡ answerer_public)
        × (TransportBinding.verify a.transport_binding ≡ true)
        × (endpoint_matches_binding (endpoint_text 4) a.transport_binding.iroh_endpoint_id ≡ true))
close_client-IsVouched_example =
    close_client-IsVouched dialer hello (0 ∷ 0 ∷ 0 ∷ 1 ∷ 2 ∷ 6 ∷ []) 7 answerer_public
      (endpoint_text 4) 501 (6 ∷ []) closed

handshake_established_example :
    handshake dialer answerer
      (1 ∷ [], 2 ∷ [])
      (some 7, some answerer_public)
      (endpoint_text 3, endpoint_text 4)
      (5 ∷ [], 6 ∷ [])
      (500, 500, 501, 501)
    ≡ ok (known, 5 ∷ [], 6 ∷ [])
unfolding sessions client_hello server_hello
handshake_established_example =
    handshake_established toy-SignsSoundly dialer answerer (1 ∷ []) (2 ∷ []) (5 ∷ []) (6 ∷ [])
      (endpoint_text 3) (endpoint_text 4) 500 500 501 501 refl refl refl refl refl refl refl refl
      refl refl (omega arith) (omega arith) refl refl
