-- ===== src/Core/Gateway.antt =====
-- crates/misaka-core/src/gateway.rs: the Gateway's wire contract and its stateless verification.
pub mod Accepts
use misaka.Prelude.{ℕ, ◌-◌, max, Bytes, Bool, not, ◌&&◌, ◌||◌, ◌==◌, ltb, bytes_eq, codes}
use misaka.Prelude.Result.{Result, ok, reject, ◌>>◌}
use misaka.Core.Types.{
  NetworkId, SisterPublicKey, SisterKeyPair, NetworkAuthority, MembershipCertificate, PeerRecord,
  GatewayAuth, GatewayAuthUnsigned, AnnouncePayload, network_id_eq, sister_id_eq,
  sister_public_key_eq,
}
use misaka.Core.MembershipCertificate
use misaka.Core.Wire.{Wire}
use misaka.Core.Keys.{zero_signature, sister_verify, sister_sign}

-- PEERS_DOMAIN
abbrev pub peers_domain : Bytes
peers_domain = codes "misaka-gateway/peers/v1"

-- The timing constants, in seconds.
abbrev pub default_record_ttl_secs : ℕ
default_record_ttl_secs = 600

abbrev pub default_auth_window_secs : ℕ
default_auth_window_secs = 300

abbrev pub default_nonce_ttl_secs : ℕ
default_nonce_ttl_secs = 900

pub data GatewayAuthError : Type 0 where
  network_mismatch body_digest_mismatch stale_timestamp invalid_membership : GatewayAuthError
  expired_membership identity_mismatch bad_signature : GatewayAuthError

unfoldable pub unsigned : GatewayAuth → GatewayAuthUnsigned
unsigned auth = record {
  network_id = auth.network_id;
  sister_id = auth.sister_id;
  timestamp = auth.timestamp;
  nonce = auth.nonce;
  body_digest = auth.body_digest;
}

-- Whether a locator names the Sister that the certificate vouches for.
unfoldable pub record_matches_membership : PeerRecord → MembershipCertificate → Bool
record_matches_membership r m =
    r.network_id == m.network_id
    && r.sister_id == m.sister_id
    && r.sister_public_key == m.sister_public_key

unfoldable pub peers_body_bytes : Bytes
peers_body_bytes = peers_domain

module _ ⦃w : Wire⦄ where
  -- transfer_content_digest, of protocol.rs
  unfoldable pub transfer_content_digest : Bytes → Bytes
  transfer_content_digest bytes = w.sha256 bytes

  unfoldable pub announce_body_bytes : MembershipCertificate → PeerRecord → Bytes
  announce_body_bytes m r = w.announce_bytes (record { membership = m; peer_record = r })

  unfoldable pub signing_bytes : GatewayAuth → Bytes
  unfolding unsigned
  signing_bytes auth = w.gateway_auth_bytes (unsigned auth)

  unfoldable pub sign : NetworkId → ℕ → ℕ → Bytes → Bytes → SisterKeyPair → GatewayAuth
  unfolding transfer_content_digest sister_sign
  sign network_id sister_id timestamp nonce body key =
      let auth : GatewayAuth = record {
        network_id = network_id;
        sister_id = record { number = sister_id };
        timestamp = timestamp;
        nonce = nonce;
        body_digest = transfer_content_digest body;
        signature = record { signature_bytes = zero_signature };
      } in
      record auth { signature = sister_sign key (signing_bytes auth) }

  unfoldable pub verify_signature : GatewayAuth → SisterPublicKey → Bool
  verify_signature auth public_key = sister_verify public_key (signing_bytes auth) auth.signature

  unfoldable pub sign_announce :
      NetworkId → ℕ → ℕ → Bytes → MembershipCertificate → PeerRecord → SisterKeyPair → GatewayAuth
  unfolding sign
  sign_announce network_id sister_id timestamp nonce m r key =
      sign network_id sister_id timestamp nonce (announce_body_bytes m r) key

  unfoldable pub sign_peers : NetworkId → ℕ → ℕ → Bytes → SisterKeyPair → GatewayAuth
  unfolding sign
  sign_peers network_id sister_id timestamp nonce key =
      sign network_id sister_id timestamp nonce peers_body_bytes key

  -- The checks in the order of the source: each `if` returns its error.
  unfoldable pub verify_request :
      GatewayAuth
      → Bytes
      → MembershipCertificate
      → NetworkAuthority
      → ℕ
      → ℕ
      → Result GatewayAuthError SisterPublicKey
  verify_request auth body m authority now window = do
    reject
        (not (auth.network_id == authority.network_id)
          || not (m.network_id == authority.network_id))
        network_mismatch
    reject (not (auth.body_digest == transfer_content_digest body)) body_digest_mismatch
    let delta = max (now - auth.timestamp) (auth.timestamp - now)
    reject (ltb window delta) stale_timestamp
    reject (not (MembershipCertificate.verify m authority)) invalid_membership
    reject (not (MembershipCertificate.is_valid_at m now)) expired_membership
    reject (not (auth.sister_id == m.sister_id)) identity_mismatch
    reject (not (verify_signature auth m.sister_public_key)) bad_signature
    ok m.sister_public_key
