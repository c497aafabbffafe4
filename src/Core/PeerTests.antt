-- ===== src/Core/PeerTests.antt =====
-- crates/misaka-core/src/peer.rs: the theorems on the peer table at a concrete table.
use misaka.Prelude.{◌≡◌, true, none, [], ◌∷◌, nat_eq, codes, arith}
use misaka.Core.PeerStateTable.{PeerState, PeerStateTable, new, upsert, contains}
use misaka.Core.PeerStateTable.Prune.{upserts, prunes, run, Within, heard-contains}
use misaka.Fixtures.{network}

abbrev neighbour : PeerState
neighbour = record {
  network_id = network;
  id = 7;
  nickname = codes "seven";
  hostname = [];
  platform = [];
  version = [];
  stream_endpoints = [];
  stream_certificate = none;
  addr = [];
  cpu_usage = 0;
  memory_total = 0;
  memory_used = 0;
  running_jobs = 0;
  queued_jobs = 0;
  uptime_secs = 0;
  capabilities = [];
}

abbrev table : PeerStateTable
table = upsert new neighbour 100

heard-contains_example : contains (run table (upserts neighbour 105 ∷ prunes 20 110 ∷ [])) 7 ≡ true
heard-contains_example =
    heard-contains new neighbour 100 (upserts neighbour 105 ∷ prunes 20 110 ∷ [])
      (unfold Within in (omega arith, (omega arith, tt)))
