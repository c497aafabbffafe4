-- ===== src/Gatewayd/Tests.antt =====
-- crates/misaka-gatewayd/src/lib.rs: the theorems at concrete requests, and its unit tests.
use misaka.Prelude.{
  ℕ, ◌≡◌, refl, ◌≤◌, inl, true, false, some, List, [], ◌∷◌, arith, All, bytes_eq, nat_eq,
}
use misaka.Prelude.Map
use misaka.Prelude.Result.{ok, err, is_ok}
use misaka.Core.Types.{PeerRecord, GatewayAuth, GatewayAnnounceRequest, GatewayPeersRequest}
use misaka.Core.TransportBinding
use misaka.Core.PeerRecord
use misaka.Core.Gateway.{
  sign_announce, sign_peers, verify_request, verify_signature, signing_bytes,
  transfer_content_digest, announce_body_bytes, peers_body_bytes, record_matches_membership,
}
use misaka.Fixtures.{
  contracts, toy, network, authority, certificate, locator, sister_key, sister_public,
}
use misaka.Gatewayd.{
  Gateway, Call, announces, lists, new, default_config, authenticate, announce, peers, run,
  live_records, entry_for, upsert, step, replayed, is_stale, publish,
}
use misaka.Gatewayd.Replay.{replay_refused}
use misaka.Gatewayd.Directory.{IsVouchedRecord, live_records-vouched}
use misaka.Gatewayd.Listing.{lists_sister, announced_is_listed}

abbrev gateway : Gateway
gateway = new (default_config authority)

abbrev announcement : GatewayAnnounceRequest
announcement = record {
  auth = sign_announce network 42 500 (1 ∷ []) certificate locator sister_key;
  membership = certificate;
  peer_record = locator;
}

abbrev listing : GatewayPeersRequest
listing = record { auth = sign_peers network 42 500 (2 ∷ []) sister_key; membership = certificate }

-- What the runs below compute with.
unfoldable evaluation : Unit {0}
unfolding contracts announce peers authenticate run step new default_config sign_announce sign_peers
    entry_for verify_request verify_signature signing_bytes announce_body_bytes peers_body_bytes
    transfer_content_digest record_matches_membership publish upsert live_records Map.lookup
    Map.insert Map.retain
evaluation = tt

announce_accepted : (announce gateway (some announcement) 500 500).1 ≡ ok tt
unfolding evaluation
announce_accepted = refl

-- The unit test of the replayed nonce.
announce_replayed :
    (announce (announce gateway (some announcement) 500 500).0 (some announcement) 500 500).1
    ≡ err replayed
unfolding evaluation
announce_replayed = refl

announce_then_peers :
    (peers (announce gateway (some announcement) 500 500).0 (some listing) 500 500).1
    ≡ ok (locator ∷ [])
unfolding evaluation
announce_then_peers = refl

authentic :
    (authenticate gateway announcement.auth
      (announce_body_bytes certificate locator)
      certificate
      500).1
    ≡ ok sister_public
unfolding evaluation
authentic = refl

-- Another request of the Sister, under the nonce of the announcement.
abbrev reused : GatewayAuth
reused = sign_peers network 42 510 (1 ∷ []) sister_key

replay_refused_example :
    is_ok
      (authenticate
        (run
          (authenticate gateway announcement.auth
            (announce_body_bytes certificate locator)
            certificate
            500).0
          (lists (some listing) 510 510 ∷ []))
        reused
        peers_body_bytes
        certificate
        520).1
    ≡ false
unfolding sign_announce sign_peers
replay_refused_example =
    replay_refused gateway announcement.auth reused (announce_body_bytes certificate locator)
      peers_body_bytes certificate certificate (lists (some listing) 510 510 ∷ []) 500 520 authentic
      refl (inl (unfold new default_config in omega arith))
      (unfold new default_config in omega arith) (unfold new default_config in omega arith)
      (omega arith) (omega arith)

abbrev history : List Call
history = announces (some announcement) 500 500 ∷ lists (some listing) 510 510 ∷ []

live_records-vouched_example :
    All
      (IsVouchedRecord authority)
      (live_records (run (new (default_config authority)) history) 520)
unfolding default_config
live_records-vouched_example = live_records-vouched (default_config authority) history 520

found_after : entry_for (run (new (default_config authority)) history) 42 520 ≡ some (locator, 7)
unfolding evaluation
found_after = refl

fresh : is_stale gateway locator 500 ≡ false
unfolding evaluation is_stale
fresh = refl

-- A request for the list near the end of the record's time to live.
abbrev late_listing : GatewayPeersRequest
late_listing = record {
  auth = sign_peers network 42 980 (3 ∷ []) sister_key;
  membership = certificate;
}

late_answer :
    (peers
      (run (announce gateway (some announcement) 500 500).0 (lists (some listing) 510 510 ∷ []))
      (some late_listing)
      980
      990).1
    ≡ ok (locator ∷ [])
unfolding evaluation
late_answer = refl

announced_is_listed_example :
    (lists_sister 42 1 (locator ∷ []) ≡ true)
    × ((r : PeerRecord) × (serial : ℕ) × (entry_for
            (run
              (announce gateway (some announcement) 500 500).0
              (lists (some listing) 510 510 ∷ []))
            42
            990
          ≡ some (r, serial))
        × (1 ≤ r.sequence))
unfolding TransportBinding.sign PeerRecord.issue
announced_is_listed_example =
    announced_is_listed gateway announcement 500 500 980 990 (lists (some listing) 510 510 ∷ [])
      late_listing (locator ∷ []) announce_accepted fresh (omega arith)
      (unfold new default_config in omega arith) (unfold new default_config in omega arith)
      (omega arith) late_answer
