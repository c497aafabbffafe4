-- ===== src/Runtime/DispatchTests.antt =====
-- crates/misaka-runtime: the theorems on the control plane at concrete data.
use misaka.Prelude.{
  ◌≤◌, ◌≡◌, refl, ◌⊎◌, ◌&&◌, ◌==◌, true, false, some, none, [], ◌∷◌, arith, nat_eq,
}
use misaka.Prelude.Map
use misaka.Prelude.Map.{lookup}
use misaka.Prelude.Result.{ok, is_ok}
use misaka.Core.Types.{PeerRecord, IrohEndpointId-discrete}
use misaka.Core.PeerRecord
use misaka.Core.PeerStateTable
use misaka.Runtime.AuthenticatedSession.{AuthenticatedPeer}
use misaka.Runtime.PeerService
use misaka.Runtime.PeerService.{PeerService, SisterIdentity}
use misaka.Runtime.Dispatch
use misaka.Runtime.Dispatch.{
  ControlNode, Envelope, HelloData, StateData, PayloadWire, state, peer_records, dispatch_envelope,
}
use misaka.Runtime.Dispatch.OwnRow.{row, dispatch_envelope-row}
use misaka.Runtime.Dispatch.Records.{Arrival, receive, record_kept, record_genuine}
use misaka.Fixtures.{toy, contracts, network, sister_public, locator, endpoint}

abbrev speaker : AuthenticatedPeer
speaker = record {
  sister_id = record { number = 42 };
  sister_public_key = sister_public;
  membership_serial = 7;
}

abbrev identity : SisterIdentity
identity = record {
  id = record { number = 42 };
  nickname = [];
  hostname = [];
  platform = [];
  version = [];
  listen_port = 31700;
}

abbrev own_hello : HelloData
own_hello = record {
  network_id = network;
  identity = identity;
  listen_addr = [];
  stream_addr = none;
  stream_certificate = none;
}

abbrev report : StateData
report = record {
  network_id = network;
  identity = identity;
  listen_addr = [];
  stream_addr = none;
  stream_certificate = none;
  cpu_usage = 0;
  memory_total = 8;
  memory_used = 4;
  running_jobs = 1;
  queued_jobs = 0;
  uptime_secs = 60;
  capabilities = [];
}

-- Payloads that are always the same, where every locator names the endpoint of the fixtures.
instance abbrev toy_payloads : PayloadWire
toy_payloads = record {
  read_hello = λ bytes. some own_hello;
  read_state = λ bytes. some report;
  read_peer_records = λ bytes. some (record { network_id = network; records = locator ∷ [] });
  hello_bytes = λ h. [];
  iroh_endpoint_bytes = λ text. some endpoint.endpoint_bytes;
}

abbrev node : ControlNode
node = record {
  network_id = network;
  sister_id = 1;
  own = own_hello;
  peers = record { registry = PeerStateTable.new; network_id = network; records = [] };
}

abbrev state_report : Envelope
state_report = Dispatch.new_envelope network state 42 1 []

abbrev record_batch : Envelope
record_batch = Dispatch.new_envelope network peer_records 42 1 []

-- The report is taken: the speaker has a row from then on.
reported :
    PeerStateTable.contains
      (dispatch_envelope node state_report (some speaker) (ok none) 9).1.peers.registry
      42
    ≡ true
unfolding contracts dispatch_envelope PeerService.upsert PeerStateTable.new PeerStateTable.upsert
    PeerStateTable.contains Map.lookup Map.insert
reported = refl

dispatch_envelope-row_example :
    (row (dispatch_envelope node state_report (some speaker) (ok none) 9).1 7 ≡ row node 7)
    × ((is_ok (dispatch_envelope node state_report (some speaker) (ok none) 9).0
          && state_report.from == 7)
        ≡ false)
dispatch_envelope-row_example =
    dispatch_envelope-row node state_report speaker (ok none) 9 7 (λ e. omega (arith, e))

-- The batch arrives twice.
abbrev batch : Arrival
batch = record { envelope = record_batch; peer = some speaker; job_reply = ok none; now = 9 }

abbrev informed : ControlNode
informed = record node {
  peers = record {
    registry = PeerStateTable.new;
    network_id = network;
    records = (42, locator) ∷ [];
  };
}

kept : lookup 42 (receive node (batch ∷ batch ∷ [])).peers.records ≡ some locator
unfolding contracts receive dispatch_envelope PeerRecord.verify Map.lookup Map.insert
    IrohEndpointId-discrete PeerService.upsert_peer_record
kept = refl

record_kept_example :
    (r' : PeerRecord) × (lookup 42 (receive informed (batch ∷ [])).peers.records ≡ some r')
    × (1 ≤ r'.sequence)
unfolding contracts
record_kept_example = record_kept informed (batch ∷ []) 42 locator (unfold Map.lookup in refl)

record_genuine_example :
    (lookup 42 node.peers.records ≡ some locator)
    ⊎ ((locator.sister_id.number ≡ 42)
        × (locator.network_id ≡ network)
        × (PeerRecord.verify locator ≡ true))
record_genuine_example = record_genuine node (batch ∷ batch ∷ []) 42 locator kept
