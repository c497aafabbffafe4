-- ===== src/Core/PeerStateTable.antt =====
-- crates/misaka-core/src/peer.rs: what a Sister knows of her neighbours. An Instant and a Duration are in
-- nanoseconds, and the clock is an argument; an f32 is given by its bits, which nothing here reads.
pub mod Prune
use misaka.Prelude.{
  ℕ, ◌-◌, Bytes, Text, Bool, true, false, not, Option, none, some, List, [], ◌∷◌, ◌==◌, nat_eq, leb,
  if◌then◌else◌, is_some_and, length,
}
use misaka.Prelude.Map
use misaka.Prelude.Map.{Map}
use misaka.Core.Types.{NetworkId}

pub record PeerState : Type 0 where
  pub network_id : NetworkId
  pub id : ℕ
  pub nickname : Text
  pub hostname : Text
  pub platform : Text
  pub version : Text
  pub stream_endpoints : List Text
  pub stream_certificate : Option Bytes
  pub addr : Text
  pub cpu_usage : ℕ
  pub memory_total : ℕ
  pub memory_used : ℕ
  pub running_jobs : ℕ
  pub queued_jobs : ℕ
  pub uptime_secs : ℕ
  pub capabilities : List Text

pub record PeerBlueprint : Type 0 where
  pub network_id : NetworkId
  pub id : ℕ
  pub addr : Text
  pub stream_endpoints : List Text
  pub stream_certificate : Option Bytes
  pub nickname : Text
  pub hostname : Text
  pub platform : Text
  pub version : Text

-- impl From<&PeerState> for PeerBlueprint
unfoldable pub blueprint : PeerState → PeerBlueprint
blueprint p = record {
  network_id = p.network_id;
  id = p.id;
  addr = p.addr;
  stream_endpoints = p.stream_endpoints;
  stream_certificate = p.stream_certificate;
  nickname = p.nickname;
  hostname = p.hostname;
  platform = p.platform;
  version = p.version;
}

pub record PeerStateTable : Type 0 where
  pub peers : Map ℕ PeerState
  pub last_seen : Map ℕ ℕ

unfoldable pub new : PeerStateTable
new = record { peers = []; last_seen = [] }

-- An empty list is replaced by the older one.
unfoldable pub or_older {ℓ} : {A : Type ℓ} → List A → List A → List A
or_older [] older = older
or_older (x ∷ xs) older = x ∷ xs

unfoldable pub or_older_option {ℓ} : {A : Type ℓ} → Option A → Option A → Option A
or_older_option none older = older
or_older_option (some x) older = some x

-- A known peer keeps its address and its machine; the observations are the new ones.
unfoldable pub merge : PeerState → PeerState → PeerState
unfolding or_older or_older_option
merge prev state = record prev {
  cpu_usage = state.cpu_usage;
  memory_total = state.memory_total;
  memory_used = state.memory_used;
  running_jobs = state.running_jobs;
  queued_jobs = state.queued_jobs;
  uptime_secs = state.uptime_secs;
  capabilities = state.capabilities;
  nickname = or_older state.nickname prev.nickname;
  stream_endpoints = or_older state.stream_endpoints prev.stream_endpoints;
  stream_certificate = or_older_option state.stream_certificate prev.stream_certificate;
}

unfoldable pub merged : Option PeerState → PeerState → PeerState
unfolding merge
merged none state = state
merged (some prev) state = merge prev state

unfoldable pub upsert : PeerStateTable → PeerState → ℕ → PeerStateTable
unfolding merged
upsert t state now = record {
  peers = Map.insert state.id (merged (Map.lookup state.id t.peers) state) t.peers;
  last_seen = Map.insert state.id now t.last_seen;
}

unfoldable pub is_some {ℓ} : {A : Type ℓ} → Option A → Bool
is_some none = false
is_some (some x) = true

unfoldable pub contains : PeerStateTable → ℕ → Bool
unfolding is_some
contains t id = is_some (Map.lookup id t.peers)

unfoldable pub get : PeerStateTable → ℕ → Option PeerState
get t id = Map.lookup id t.peers

unfoldable pub all : PeerStateTable → List PeerState
all t = Map.values t.peers

unfoldable pub len : PeerStateTable → ℕ
len t = length t.peers

-- A peer that was seen within the timeout; `duration_since` stops at 0.
unfoldable pub is_alive : PeerStateTable → ℕ → ℕ → ℕ → Bool
is_alive t timeout now id =
    is_some_and (Map.lookup id t.last_seen) (λ seen. leb (now - seen) timeout)

unfoldable pub dead : PeerStateTable → ℕ → ℕ → Map ℕ PeerState → List ℕ
unfolding is_alive
dead t timeout now [] = []
dead t timeout now ((id, state) ∷ m) =
    let rest = dead t timeout now m in if is_alive t timeout now id then rest else id ∷ rest

unfoldable pub forget : List ℕ → Map ℕ ℕ → Map ℕ ℕ
forget [] m = m
forget (id ∷ ids) m = forget ids (Map.remove id m)

-- The ids that were removed, and the table without them.
unfoldable pub prune_offline : PeerStateTable → ℕ → ℕ → List ℕ × PeerStateTable
unfolding dead forget
prune_offline t timeout now =
    let removed = dead t timeout now t.peers in
    (
      removed,
      record {
        peers = Map.retain (λ id _. is_alive t timeout now id) t.peers;
        last_seen = forget removed t.last_seen;
      },
    )
