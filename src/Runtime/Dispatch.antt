-- ===== src/Runtime/Dispatch.antt =====
-- crates/misaka-runtime/src/handler.rs: dispatch_envelope, with the branches on peers. The job branches
-- are JobHandler's; they change no peer, and are an argument here.
mod Remembered
mod Succession
pub mod OwnRow
pub mod Records
use misaka.Prelude.{
  ℕ, Bytes, Text, Bool, true, false, not, ◌||◌, ◌&&◌, Option, none, some, List, [], ◌∷◌, ◌==◌,
  nat_eq, is_none_or, if◌then◌else◌,
}
use misaka.Prelude.Result.{Result, ok, err}
use misaka.Core.Types.{
  NetworkId, SisterId, PeerRecord, IrohEndpointId, network_id_eq, iroh_endpoint_id_eq,
}
use misaka.Core.PeerRecord
use misaka.Core.PeerStateTable.{PeerState}
use misaka.Core.Wire.{Wire}
use misaka.Runtime.AuthenticatedSession.{AuthenticatedPeer}
use misaka.Runtime.PeerService
use misaka.Runtime.PeerService.{PeerService, SisterIdentity, option_list}

pub data MessageType : Type 0 where
  hello heartbeat state job job_request job_response acknowledgement ping pong peer_records :
      MessageType

-- PROTOCOL_VERSION of the envelope
abbrev pub protocol_version_number : ℕ
protocol_version_number = 3

pub record Envelope : Type 0 where
  pub network_id : NetworkId
  pub protocol_version : ℕ
  pub msg_type : MessageType
  pub from : ℕ
  pub to : ℕ
  pub bytes : Bytes

-- Envelope::new
unfoldable pub new_envelope : NetworkId → MessageType → ℕ → ℕ → Bytes → Envelope
new_envelope network_id msg_type from to bytes = record {
  network_id = network_id;
  protocol_version = protocol_version_number;
  msg_type = msg_type;
  from = from;
  to = to;
  bytes = bytes;
}

pub record HelloData : Type 0 where
  pub network_id : NetworkId
  pub identity : SisterIdentity
  pub listen_addr : Text
  pub stream_addr : Option Text
  pub stream_certificate : Option Bytes

pub record PeerRecordsData : Type 0 where
  pub network_id : NetworkId
  pub records : List PeerRecord

-- An f32 is given by its bits, which nothing here reads.
pub record StateData : Type 0 where
  pub network_id : NetworkId
  pub identity : SisterIdentity
  pub listen_addr : Text
  pub stream_addr : Option Text
  pub stream_certificate : Option Bytes
  pub cpu_usage : ℕ
  pub memory_total : ℕ
  pub memory_used : ℕ
  pub running_jobs : ℕ
  pub queued_jobs : ℕ
  pub uptime_secs : ℕ
  pub capabilities : List Text

-- bincode at the payloads, and the id of an endpoint of the form iroh://, which serde_json reads
pub record PayloadWire : Type 0 where
  pub read_hello : Bytes → Option HelloData
  pub read_state : Bytes → Option StateData
  pub read_peer_records : Bytes → Option PeerRecordsData
  pub hello_bytes : HelloData → Bytes
  pub iroh_endpoint_bytes : Text → Option Bytes

-- `own` is the HelloData that the Sister answers a Hello with.
pub record ControlNode : Type 0 where
  pub network_id : NetworkId
  pub sister_id : ℕ
  pub own : HelloData
  pub peers : PeerService

pub data DispatchError : Type 0 where
  wrong_network spoofed_sender codec : DispatchError

unfoldable pub sender_matches_peer : Option AuthenticatedPeer → ℕ → Bool
sender_matches_peer peer claimed = is_none_or peer (λ p. p.sister_id.number == claimed)

-- An error leaves the node as it was.
abbrev pub Outcome : Type 0
Outcome = Result DispatchError (Option Envelope) × ControlNode

unfoldable pub peer_state : StateData → PeerState
unfolding option_list
peer_state s = record {
  network_id = s.network_id;
  id = s.identity.id.number;
  nickname = s.identity.nickname;
  hostname = s.identity.hostname;
  platform = s.identity.platform;
  version = s.identity.version;
  stream_endpoints = option_list s.stream_addr;
  stream_certificate = s.stream_certificate;
  addr = s.listen_addr;
  cpu_usage = s.cpu_usage;
  memory_total = s.memory_total;
  memory_used = s.memory_used;
  running_jobs = s.running_jobs;
  queued_jobs = s.queued_jobs;
  uptime_secs = s.uptime_secs;
  capabilities = s.capabilities;
}

unfoldable pub handle_state :
    ControlNode → Option AuthenticatedPeer → Option StateData → ℕ → Outcome
unfolding sender_matches_peer peer_state
handle_state node peer none now = (err codec, node)
handle_state node peer (some s) now =
    if not (s.network_id == node.network_id)
    then (ok none, node)
    else if not (sender_matches_peer peer s.identity.id.number)
    then (err spoofed_sender, node)
    else (ok none, record node { peers = PeerService.upsert node.peers (peer_state s) now })

module _ ⦃w : Wire⦄ ⦃p : PayloadWire⦄ where
  -- The push of the known peer records that follows the reply is a task of its own.
  unfoldable pub handle_hello :
      ControlNode → Option AuthenticatedPeer → ℕ → Option HelloData → ℕ → Outcome
  unfolding sender_matches_peer new_envelope
  handle_hello node peer from none now = (err codec, node)
  handle_hello node peer from (some h) now =
      if not (h.network_id == node.network_id)
      then (err wrong_network, node)
      else if not (sender_matches_peer peer h.identity.id.number)
      then (err spoofed_sender, node)
      else (
        ok (some (new_envelope node.network_id hello node.sister_id from (p.hello_bytes node.own))),
        record node {
          peers =
              PeerService.remember_peer node.peers h.identity h.network_id h.listen_addr
                h.stream_addr h.stream_certificate now;
        },
      )

  unfoldable pub names_endpoint : Option Bytes → IrohEndpointId → Bool
  names_endpoint none binding = false
  names_endpoint (some bytes) binding = record { endpoint_bytes = bytes } == binding

  -- SisterNode::remember_peer_record
  unfoldable pub remember_peer_record : ControlNode → PeerRecord → ControlNode
  unfolding names_endpoint
  remember_peer_record node r =
      if not (r.network_id == node.network_id)
        || not (PeerRecord.verify r)
        || not (
            names_endpoint (p.iroh_endpoint_bytes r.endpoint_addr)
              r.transport_binding.iroh_endpoint_id)
      then node
      else record node { peers = PeerService.upsert_peer_record node.peers r }

  unfoldable pub remember_all : ControlNode → List PeerRecord → ControlNode
  unfolding remember_peer_record
  remember_all node [] = node
  remember_all node (r ∷ rs) = remember_all (remember_peer_record node r) rs

  unfoldable pub handle_peer_records : ControlNode → Option PeerRecordsData → Outcome
  unfolding remember_all
  handle_peer_records node none = (err codec, node)
  handle_peer_records node (some d) =
      if not (d.network_id == node.network_id)
      then (ok none, node)
      else (ok none, remember_all node d.records)

  -- The branches of the match on the message type.
  unfoldable pub handle_message :
      ControlNode
      → MessageType
      → Envelope
      → Option AuthenticatedPeer
      → Result DispatchError (Option Envelope)
      → ℕ
      → Outcome
  unfolding handle_hello handle_state handle_peer_records new_envelope
  handle_message node ping env peer job_reply now =
      (ok (some (new_envelope node.network_id pong node.sister_id env.from [])), node)
  handle_message node hello env peer job_reply now =
      handle_hello node peer env.from (p.read_hello env.bytes) now
  handle_message node state env peer job_reply now =
      handle_state node peer (p.read_state env.bytes) now
  handle_message node peer_records env peer job_reply now =
      handle_peer_records node (p.read_peer_records env.bytes)
  handle_message node job env peer job_reply now = (job_reply, node)
  handle_message node job_request env peer job_reply now = (job_reply, node)
  handle_message node job_response env peer job_reply now = (job_reply, node)
  handle_message node heartbeat env peer job_reply now = (ok none, node)
  handle_message node acknowledgement env peer job_reply now = (ok none, node)
  handle_message node pong env peer job_reply now = (ok none, node)

  unfoldable pub dispatch_envelope :
      ControlNode
      → Envelope
      → Option AuthenticatedPeer
      → Result DispatchError (Option Envelope)
      → ℕ
      → Outcome
  unfolding sender_matches_peer handle_message
  dispatch_envelope node env peer job_reply now =
      if not (env.network_id == node.network_id)
      then (err wrong_network, node)
      else if not (sender_matches_peer peer env.from)
      then (err spoofed_sender, node)
      else handle_message node env.msg_type env peer job_reply now
