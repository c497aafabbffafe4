-- ===== src/Runtime/PeerService.antt =====
-- crates/misaka-runtime/src/peer_service.rs: what a Sister knows of her peers, over the table that
-- peer_registry.rs guards. The files behind it are a cache, whose failures change nothing here.
use misaka.Prelude.{
  ℕ, Bytes, Text, not, ◌||◌, Option, none, some, List, [], ◌∷◌, ◌==◌, nat_eq, ltb, is_some_and,
  if◌then◌else◌,
}
use misaka.Prelude.Map
use misaka.Prelude.Map.{Map}
use misaka.Core.Types.{NetworkId, SisterId, PeerRecord, network_id_eq}
use misaka.Core.PeerRecord
use misaka.Core.PeerStateTable
use misaka.Core.PeerStateTable.{PeerState, PeerStateTable}
use misaka.Core.Wire.{Wire}

-- The public metadata of a Sister (identity.rs).
pub record SisterIdentity : Type 0 where
  pub id : SisterId
  pub nickname : Text
  pub hostname : Text
  pub platform : Text
  pub version : Text
  pub listen_port : ℕ

pub record PeerService : Type 0 where
  pub registry : PeerStateTable
  pub network_id : NetworkId
  pub records : Map ℕ PeerRecord

unfoldable pub upsert : PeerService → PeerState → ℕ → PeerService
upsert service state now =
    if not (state.network_id == service.network_id)
    then service
    else record service { registry = PeerStateTable.upsert service.registry state now }

-- Option::into_iter().collect()
unfoldable pub option_list {ℓ} : {A : Type ℓ} → Option A → List A
option_list none = []
option_list (some a) = a ∷ []

-- The state of a peer of which only the identity and the addresses are known; 0.0 has the bits 0.
unfoldable pub introduced :
    SisterIdentity → NetworkId → Text → Option Text → Option Bytes → PeerState
unfolding option_list
introduced identity network_id listen_addr stream_addr stream_certificate = record {
  network_id = network_id;
  id = identity.id.number;
  nickname = identity.nickname;
  hostname = identity.hostname;
  platform = identity.platform;
  version = identity.version;
  stream_endpoints = option_list stream_addr;
  stream_certificate = stream_certificate;
  addr = listen_addr;
  cpu_usage = 0;
  memory_total = 0;
  memory_used = 0;
  running_jobs = 0;
  queued_jobs = 0;
  uptime_secs = 0;
  capabilities = [];
}

unfoldable pub remember_peer :
    PeerService → SisterIdentity → NetworkId → Text → Option Text → Option Bytes → ℕ → PeerService
unfolding upsert introduced
remember_peer service identity network_id listen_addr stream_addr stream_certificate now =
    if not (network_id == service.network_id)
    then service
    else upsert service (introduced identity network_id listen_addr stream_addr stream_certificate)
        now

module _ ⦃w : Wire⦄ where
  unfoldable pub upsert_peer_record : PeerService → PeerRecord → PeerService
  upsert_peer_record service r =
      if not (r.network_id == service.network_id) || not (PeerRecord.verify r)
      then service
      else if is_some_and (Map.lookup r.sister_id.number service.records)
          (λ current. ltb r.sequence current.sequence)
      then service
      else record service { records = Map.insert r.sister_id.number r service.records }
