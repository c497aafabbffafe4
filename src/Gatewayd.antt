-- ===== src/Gatewayd.antt =====
-- crates/misaka-gatewayd/src/lib.rs: the native Gateway. A handler takes the state and the readings
-- of the clock that it makes, in order, and returns the state with the response. The parse of the
-- body by serde_json is an argument, `none` where it fails.
mod Cases
mod Nonces
pub mod Replay
pub mod Directory
pub mod Listed
pub mod Listing
mod Tests
use misaka.Prelude.{
  ℕ, ◌+◌, ◌%◌, ◌^◌, Bytes, Bool, true, false, not, ◌&&◌, Option, none, some, List, [], ◌∷◌, ◌==◌,
  ltb, if◌then◌else◌, is_some_and, inl, inr, nat_eq, bytes_eq,
}
use misaka.Prelude.Map
use misaka.Prelude.Map.{Map}
use misaka.Prelude.Result.{Result, ok, err, Result-cases}
use misaka.Core.Types.{
  SisterPublicKey, NetworkAuthority, MembershipCertificate, PeerRecord, GatewayAuth,
  GatewayAnnounceRequest, GatewayPeersRequest,
}
use misaka.Core.PeerRecord
use misaka.Core.Wire.{Wire}
use misaka.Core.Gateway.{
  GatewayAuthError, verify_request, announce_body_bytes, peers_body_bytes,
  record_matches_membership, default_record_ttl_secs, default_auth_window_secs,
  default_nonce_ttl_secs,
}

pub record GatewayConfig : Type 0 where
  pub authority : NetworkAuthority
  pub record_ttl_secs : ℕ
  pub auth_window_secs : ℕ
  pub nonce_ttl_secs : ℕ

pub record DirectoryEntry : Type 0 where
  pub peer_record : PeerRecord
  pub membership_serial : ℕ
  pub expires_at : ℕ

pub record Gateway : Type 0 where
  pub config : GatewayConfig
  pub members : Map ℕ DirectoryEntry
  pub nonces : Map Bytes ℕ

pub data GatewayError : Type 0 where
  auth : GatewayAuthError → GatewayError
  replayed invalid_body identity_mismatch invalid_record internal : GatewayError

-- GatewayConfig::new
unfoldable pub default_config : NetworkAuthority → GatewayConfig
default_config authority = record {
  authority = authority;
  record_ttl_secs = default_record_ttl_secs;
  auth_window_secs = default_auth_window_secs;
  nonce_ttl_secs = default_nonce_ttl_secs;
}

-- Gateway::new
unfoldable pub new : GatewayConfig → Gateway
new config = record { config = config; members = []; nonces = [] }

-- u64 addition, which wraps in a release build
abbrev pub add_u64 : ℕ → ℕ → ℕ
add_u64 a b = (a + b) % 2 ^ 64

-- The nonces that still block at `now`.
unfoldable pub live_nonces : Gateway → ℕ → Map Bytes ℕ
live_nonces g now = Map.retain (λ _ expiry. ltb now expiry) g.nonces

-- The set of nonces after `retain` and `insert`; the insertion happens on a replay too.
unfoldable pub spend_nonce : Gateway → Bytes → ℕ → Gateway
unfolding live_nonces
spend_nonce g nonce now = record g {
  nonces = Map.insert nonce (add_u64 now g.config.nonce_ttl_secs) (live_nonces g now);
}

-- Whether a live entry has a higher sequence.
unfoldable pub is_stale : Gateway → PeerRecord → ℕ → Bool
is_stale g r now =
    is_some_and (Map.lookup r.sister_id.number g.members)
      (λ entry. ltb now entry.expires_at && ltb r.sequence entry.peer_record.sequence)

unfoldable pub new_entry : Gateway → PeerRecord → MembershipCertificate → ℕ → DirectoryEntry
new_entry g r m now = record {
  peer_record = r;
  membership_serial = m.serial;
  expires_at = add_u64 now g.config.record_ttl_secs;
}

-- The directory write.
unfoldable pub upsert : Gateway → PeerRecord → MembershipCertificate → ℕ → Gateway
unfolding is_stale new_entry
upsert g r m now =
    if is_stale g r now
    then g
    else record g { members = Map.insert r.sister_id.number (new_entry g r m now) g.members }

-- The records that are live at `now`; the order of a hash map's values is not specified.
unfoldable pub live_of : ℕ → Map ℕ DirectoryEntry → List PeerRecord
live_of now [] = []
live_of now ((id, entry) ∷ m) =
    let rest = live_of now m in if ltb now entry.expires_at then entry.peer_record ∷ rest else rest

unfoldable pub live_records : Gateway → ℕ → List PeerRecord
unfolding live_of
live_records g now = live_of now g.members

unfoldable pub live_entry : Option DirectoryEntry → ℕ → Option (PeerRecord × ℕ)
live_entry none now = none
live_entry (some entry) now =
    if ltb now entry.expires_at then some (entry.peer_record, entry.membership_serial) else none

unfoldable pub entry_for : Gateway → ℕ → ℕ → Option (PeerRecord × ℕ)
unfolding live_entry
entry_for g sister_id now = live_entry (Map.lookup sister_id g.members) now

module _ ⦃w : Wire⦄ where
  -- The guard on replays, after the stateless checks.
  unfoldable pub check_nonce :
      Gateway → Bytes → SisterPublicKey → ℕ → Gateway × Result GatewayError SisterPublicKey
  unfolding spend_nonce
  check_nonce g nonce key now = elim (Map.lookup nonce (live_nonces g now)) [
    | none ↦ (spend_nonce g nonce now, ok key)
    | some _ ↦ (spend_nonce g nonce now, err replayed)
  ]

  unfoldable pub authenticate :
      Gateway
      → GatewayAuth
      → Bytes
      → MembershipCertificate
      → ℕ
      → Gateway × Result GatewayError SisterPublicKey
  unfolding check_nonce
  authenticate g a body m now =
      elim (verify_request a body m g.config.authority now g.config.auth_window_secs) [
        | err e ↦ (g, err (auth e))
        | ok key ↦ check_nonce g a.nonce key now
      ]

  -- `announce`, after the request is authenticated.
  unfoldable pub publish :
      Gateway → PeerRecord → MembershipCertificate → ℕ → Gateway × Result GatewayError (Unit {0})
  publish g r m now =
      if not (record_matches_membership r m)
      then (g, err identity_mismatch)
      else if not (PeerRecord.verify r)
      then (g, err invalid_record)
      else (upsert g r m now, ok tt)

  -- POST /v1/announce, with the clock as `authenticate` and as `upsert` read it.
  unfoldable pub announce :
      Gateway → Option GatewayAnnounceRequest → ℕ → ℕ → Gateway × Result GatewayError (Unit {0})
  announce g none now later = (g, err invalid_body)
  announce g (some request) now later =
      let payload = announce_body_bytes request.membership request.peer_record in
      let (g', outcome) = authenticate g request.auth payload request.membership now in
      elim outcome [
        | err e ↦ (g', err e)
        | ok _ ↦ publish g' request.peer_record request.membership later
      ]

  -- POST /v1/peers, with the clock as `authenticate` and as `live_records` read it.
  unfoldable pub peers :
      Gateway → Option GatewayPeersRequest → ℕ → ℕ → Gateway × Result GatewayError (List PeerRecord)
  peers g none now later = (g, err invalid_body)
  peers g (some request) now later =
      let (g', outcome) = authenticate g request.auth peers_body_bytes request.membership now in
      elim outcome [ err e ↦ (g', err e) | ok _ ↦ (g', ok (live_records g' later)) ]

-- One request that reached the router, with its two readings of the clock.
pub data Call : Type 0 where
  announces : Option GatewayAnnounceRequest → ℕ → ℕ → Call
  lists : Option GatewayPeersRequest → ℕ → ℕ → Call

module _ ⦃w : Wire⦄ where
  unfoldable pub step : Gateway → Call → Gateway
  step g (announces request now later) = (announce g request now later).0
  step g (lists request now later) = (peers g request now later).0

  unfoldable pub run : Gateway → List Call → Gateway
  run g [] = g
  run g (c ∷ cs) = run (step g c) cs
