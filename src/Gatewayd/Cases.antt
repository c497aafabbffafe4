-- ===== src/Gatewayd/Cases.antt =====
-- crates/misaka-gatewayd/src/lib.rs: the handlers by the outcome of their authentication.
use misaka.Prelude.{ℕ, ◌≡◌, some, arith, inl, inr, refl, ◌∙◌, Bytes, none}
use misaka.Prelude.Result.{ok, Result-cases}
use misaka.Core.Types.{
  GatewayAnnounceRequest, GatewayPeersRequest, SisterPublicKey, GatewayAuth, MembershipCertificate,
  PeerRecord,
}
use misaka.Core.Wire.{Wire}
use misaka.Core.Gateway.{announce_body_bytes, peers_body_bytes, verify_request}
use misaka.Core.Gateway.Accepts.{Accepts, accepted_meets}
use misaka.Gatewayd.{
  Gateway, Call, announces, lists, authenticate, spend_nonce, upsert, publish, announce, peers,
  step,
}

-- A property of the state after a handler, from the state that its authentication left.
module _ {ℓ} ⦃w : Wire⦄ (P : Gateway → Type ℓ) (g : Gateway) (now later : ℕ) where
  pub announce_cases :
      (q : GatewayAnnounceRequest)
      → let payload = announce_body_bytes q.membership q.peer_record in
        let (g', outcome) = authenticate g q.auth payload q.membership now in
        P g'
        → ((key : SisterPublicKey)
            → outcome ≡ ok key
            → P (publish g' q.peer_record q.membership later).0)
        → P (announce g (some q) now later).0
  unfolding announce
  announce_cases q refused accepted =
      elim (Result-cases
        (authenticate g q.auth (announce_body_bytes q.membership q.peer_record) q.membership
          now).1) [
            | inl (key, e) ↦ rw (e, announce) (accepted key e)
            | inr (error, e) ↦ rw (e, announce) refused
          ]

  pub peers_cases :
      (q : GatewayPeersRequest)
      → P (authenticate g q.auth peers_body_bytes q.membership now).0
      → P (peers g (some q) now later).0
  unfolding peers
  peers_cases q h =
      elim (Result-cases (authenticate g q.auth peers_body_bytes q.membership now).1) [
        | inl (key, e) ↦ rw (e, peers) h
        | inr (error, e) ↦ rw (e, peers) h
      ]

module _ ⦃w : Wire⦄ (g : Gateway) (a : GatewayAuth) (body : Bytes) (m : MembershipCertificate)
    (now : ℕ) where
  verified_of_authenticated :
      {key : SisterPublicKey}
      → (authenticate g a body m now).1 ≡ ok key
      → verify_request a body m g.config.authority now g.config.auth_window_secs ≡ ok key
  unfolding authenticate
  verified_of_authenticated h = ground arith

  -- What `authenticate` lets through meets the description of a valid request.
  pub authenticate-Accepts :
      {key : SisterPublicKey}
      → (authenticate g a body m now).1 ≡ ok key
      → Accepts a body m g.config.authority now g.config.auth_window_secs
  authenticate-Accepts h =
      accepted_meets a body m g.config.authority now g.config.auth_window_secs
        (verified_of_authenticated h)

  pub config-authenticate : (authenticate g a body m now).0.config ≡ g.config
  unfolding authenticate spend_nonce
  config-authenticate = ground arith

  pub members-authenticate : (authenticate g a body m now).0.members ≡ g.members
  unfolding authenticate spend_nonce
  members-authenticate = ground arith

module _ ⦃w : Wire⦄ where
  config-publish :
      (g : Gateway) (r : PeerRecord) (m : MembershipCertificate) (now : ℕ)
      → (publish g r m now).0.config ≡ g.config
  unfolding publish upsert
  config-publish g r m now = ground arith

  pub config-step : (g : Gateway) (c : Call) → (step g c).config ≡ g.config
  unfolding step announce peers
  config-step g (announces none now later) = refl
  config-step g (announces (some q) now later) =
      announce_cases (λ g'. g'.config ≡ g.config) g now later q
        (config-authenticate g q.auth _ q.membership now)
        (λ _ _.
          config-publish _ q.peer_record q.membership later
          ∙ config-authenticate g q.auth _ q.membership now)
  config-step g (lists none now later) = refl
  config-step g (lists (some q) now later) =
      peers_cases (λ g'. g'.config ≡ g.config) g now later q
        (config-authenticate g q.auth _ q.membership now)
