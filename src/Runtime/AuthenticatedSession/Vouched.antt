-- ===== src/Runtime/AuthenticatedSession/Vouched.antt =====
-- crates/misaka-runtime/src/authenticated_session.rs: what each end knows after the handshake.
use misaka.Prelude.{
  ℕ, ◌≡◌, ap, ◌∙◌, inl, inr, Bytes, Text, true, false, Option, some, nat_eq, arith,
}
use misaka.Prelude.Result.{Result, ok, err, ◌>>=◌, bind_ok, Result-cases}
use misaka.Core.Types.{
  SisterPublicKey, MembershipKind, AuthenticatedClientHello, AuthenticatedServerHello,
  sister_public_key_eq,
}
use misaka.Core.AuthenticatedClientHello
use misaka.Core.AuthenticatedServerHello
use misaka.Core.MembershipCertificate
use misaka.Core.TransportBinding
use misaka.Core.Wire.{Wire}
use misaka.Runtime.Frame.{FrameError, too_large, write_frame, read_frame}
use misaka.Runtime.AuthenticatedSession.{
  AuthenticatedSessionConfig, AuthenticatedPeer, SessionWire, from_frame, max_auth_frame_length,
  membership_is_revoked, endpoint_matches_binding, validate_local, validate_client,
}
use misaka.Runtime.AuthenticatedSession.Handshake.{
  server_hello, close_client, answer_client, peer_of, authenticate_server,
}
use misaka.Runtime.AuthenticatedSession.Established.{
  validate_client_iff, validate_server_iff, is_unproven_iff,
}

from_frame_ok {ℓ} : {A : Type ℓ} (r : Result FrameError A) (a : A) → from_frame r ≡ ok a → r ≡ ok a
from_frame_ok (ok a') a h = ground (arith, h)
from_frame_ok (err FrameError.io) a h = cc
from_frame_ok (err FrameError.codec) a h = cc
from_frame_ok (err too_large) a h = cc

ok_parts :
    {E : Type 0} (peer peer' : AuthenticatedPeer) (sent sent' rest rest' : Bytes)
    → ◌≡◌ {A = Result E (AuthenticatedPeer × Bytes × Bytes)}
        (ok (peer, sent, rest))
        (ok (peer', sent', rest'))
    → (peer ≡ peer') × (rest ≡ rest')
ok_parts peer peer' sent sent' rest rest' h = ground (arith, h)

err_ok {ℓ} : {E : Type 0} {A : Type ℓ} (e : E) (a : A) → ◌≡◌ {A = Result E A} (err e) (ok a) → ⊥
err_ok e a h = cc

module _ ⦃w : Wire⦄ ⦃net : SessionWire⦄ where
  answer_client_read :
      (local : AuthenticatedSessionConfig) (nonce : Bytes) (remote : Option Text) (later : ℕ)
      (hello : AuthenticatedClientHello) (left : Bytes) (peer : AuthenticatedPeer)
      (sent rest : Bytes)
      → answer_client local nonce remote later (hello, left) ≡ ok (peer, sent, rest)
      → (validate_client local hello remote later ≡ ok tt) × (peer_of hello ≡ peer) × (left ≡ rest)
  unfolding answer_client
  answer_client_read local nonce remote later hello left peer sent rest h =
      elim (Result-cases (validate_client local hello remote later)) [
        | inl (u, v) ↦
            elim (Result-cases (
              from_frame (
                write_frame max_auth_frame_length net.server_codec
                  (server_hello local hello.nonce nonce)))) [
                    | inl (out, a) ↦
                        let same = ok_parts _ _ _ _ _ _ (rw (v, a) at h) in (v, same.0, same.1)
                    | inr (e, a) ↦ absurd (err_ok e _ (rw (v, a) at h))
                  ]
        | inr (e, v) ↦ absurd (err_ok e _ (rw v at h))
      ]

  authenticate_server_read :
      (local : AuthenticatedSessionConfig) (stream nonce : Bytes) (remote : Option Text)
      (now later : ℕ) (peer : AuthenticatedPeer) (sent rest : Bytes)
      → authenticate_server local stream nonce remote now later ≡ ok (peer, sent, rest)
      → (hello : AuthenticatedClientHello) × (read_frame max_auth_frame_length net.client_codec
            stream
          ≡ ok (hello, rest))
        × (validate_client local hello remote later ≡ ok tt)
        × (peer_of hello ≡ peer)
  unfolding authenticate_server
  authenticate_server_read local stream nonce remote now later peer sent rest h =
      bind_ok {m = validate_local local now}
        {f = λ _.
          from_frame (read_frame max_auth_frame_length net.client_codec stream)
          >>= answer_client local nonce remote later}
        h
        (λ u _ after.
          bind_ok {f = answer_client local nonce remote later} after (λ (hello, left) r done.
            let parts =
              answer_client_read local nonce remote later hello left peer sent rest done in
            (hello, from_frame_ok _ _ r ∙ ap (λ l. ok (hello, l)) parts.2, parts.0, parts.1)))

  -- When the server end completes, a hello stood first on the stream whose signature verifies under
  -- the very key that the server then knows the peer by; the authority certified that key for the
  -- Sister and with the serial that the peer is known by, and the certificate is current and not
  -- revoked; and the key signed the binding of the stream's remote endpoint.
  pub authenticate_server-IsVouched :
      (local : AuthenticatedSessionConfig) (stream nonce : Bytes) (remote : Option Text)
      (now later : ℕ) (peer : AuthenticatedPeer) (sent rest : Bytes)
      → authenticate_server local stream nonce remote now later ≡ ok (peer, sent, rest)
      → (hello : AuthenticatedClientHello) × (read_frame max_auth_frame_length net.client_codec
            stream
          ≡ ok (hello, rest))
        × ((hello.sister_public_key ≡ peer.sister_public_key)
            × (AuthenticatedClientHello.verify_signature hello ≡ true)
            × (hello.membership_certificate.sister_public_key ≡ peer.sister_public_key)
            × (hello.membership_certificate.sister_id ≡ peer.sister_id)
            × (hello.membership_certificate.serial ≡ peer.membership_serial)
            × (MembershipCertificate.verify hello.membership_certificate local.authority ≡ true)
            × (MembershipCertificate.is_valid_at hello.membership_certificate later ≡ true)
            × (membership_is_revoked local MembershipKind.sister peer.membership_serial ≡ ok false)
            × (hello.transport_binding.sister_public_key ≡ peer.sister_public_key)
            × (TransportBinding.verify hello.transport_binding ≡ true)
            × (endpoint_matches_binding remote hello.transport_binding.iroh_endpoint_id ≡ true))
  unfolding peer_of
  authenticate_server-IsVouched local stream nonce remote now later peer sent rest h =
      let (hello, r, v, p) =
        authenticate_server_read local stream nonce remote now later peer sent rest h in
      let parts = (validate_client_iff local hello remote later).0 v in
      (hello, r, ground (arith, p, parts))

  -- When the client end completes, an answer stood first on the stream that carries the nonce of the
  -- client's own hello and is of the Sister and the key that the client expected; it verifies under
  -- that key, which the authority certified for that Sister in a certificate that is current and not
  -- revoked; and the key signed the binding of the stream's remote endpoint.
  pub close_client-IsVouched :
      (local : AuthenticatedSessionConfig) (hello : AuthenticatedClientHello) (stream : Bytes)
      (id : ℕ) (key : SisterPublicKey) (remote : Option Text) (now : ℕ) (rest : Bytes)
      → close_client local hello stream (some id) (some key) remote now ≡ ok rest
      → (answer : AuthenticatedServerHello) × (read_frame max_auth_frame_length net.server_codec
            stream
          ≡ ok (answer, rest))
        × ((answer.client_nonce ≡ hello.nonce)
            × (answer.sister_public_key ≡ key)
            × (AuthenticatedServerHello.verify_signature answer ≡ true)
            × (answer.membership_certificate.sister_public_key ≡ key)
            × (answer.membership_certificate.sister_id.number ≡ id)
            × (MembershipCertificate.verify answer.membership_certificate local.authority ≡ true)
            × (MembershipCertificate.is_valid_at answer.membership_certificate now ≡ true)
            × (membership_is_revoked local MembershipKind.sister
                  answer.membership_certificate.serial
                ≡ ok false)
            × (answer.transport_binding.sister_public_key ≡ key)
            × (TransportBinding.verify answer.transport_binding ≡ true)
            × (endpoint_matches_binding remote answer.transport_binding.iroh_endpoint_id ≡ true))
  unfolding close_client
  close_client-IsVouched local hello stream id key remote now rest h =
      bind_ok h (λ (answer, left) r h. bind_ok h (λ v c h.
        let parts = (validate_server_iff local hello answer (some id) (some key) remote now).0 c in
        let proven = (is_unproven_iff local answer now).0 parts.5 in
        (
          answer,
          from_frame_ok _ _ r ∙ ap (λ l. ok (answer, l)) (ground (arith, h)),
          ground (arith, parts, proven),
        )))
