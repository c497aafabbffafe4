-- ===== src/Core/Transfer.antt =====
-- crates/misaka-core/src/protocol.rs: the messages of the file transfers and their integrity digest.
use Prim.Native.Nat.{bit_xor}
use misaka.Prelude.{ℕ, ◌*◌, ◌/◌, ◌%◌, ◌^◌, Bytes, Text, Bool, Option, List, [], ◌∷◌, ◌++◌, map, Eq}
use misaka.Core.Types.{CommandAuthorization}

-- TRANSFER_V1_CHUNK_SIZE
abbrev pub transfer_v1_chunk_size : ℕ
transfer_v1_chunk_size = 65536

abbrev pub transfer_digest_prime : ℕ
transfer_digest_prime = 0x100000001b3

-- One byte into one lane of 64 bits.
unfoldable pub mix_lane : ℕ → ℕ → ℕ
mix_lane byte lane = bit_xor lane byte * transfer_digest_prime % 2 ^ 64

unfoldable pub update_transfer_digest : List ℕ → Bytes → List ℕ
unfolding mix_lane
update_transfer_digest state [] = state
update_transfer_digest state (byte ∷ bytes) =
    update_transfer_digest (map (mix_lane byte) state) bytes

-- u64::to_le_bytes
unfoldable pub to_le_bytes : ℕ → Bytes
to_le_bytes n =
    n % 256
    ∷ n / 256 % 256
    ∷ n / 65536 % 256
    ∷ n / 16777216 % 256
    ∷ n / 4294967296 % 256
    ∷ n / 1099511627776 % 256
    ∷ n / 281474976710656 % 256
    ∷ n / 72057594037927936 % 256
    ∷ []

unfoldable pub finalize_transfer_digest : List ℕ → Bytes
unfolding to_le_bytes
finalize_transfer_digest [] = []
finalize_transfer_digest (lane ∷ lanes) = to_le_bytes lane ++ finalize_transfer_digest lanes

unfoldable pub transfer_digest : Bytes → Bytes
unfolding update_transfer_digest finalize_transfer_digest
transfer_digest bytes = finalize_transfer_digest (
    update_transfer_digest
      (0xcbf29ce484222325 ∷ 0x84222325cbf29ce4 ∷ 0x9e3779b185ebca87 ∷ 0xd6e8feb86659fd93 ∷ [])
      bytes)

pub data TransferV2Operation : Type 0 where
  prepare chunk finalize : TransferV2Operation

unfoldable pub TransferV2Operation-discrete : Discrete TransferV2Operation
TransferV2Operation-discrete = hlevel

instance abbrev pub transfer_v2_operation_eq : Eq TransferV2Operation
transfer_v2_operation_eq = record { dec = TransferV2Operation-discrete }

pub record TransferV2Request : Type 0 where
  pub operation : TransferV2Operation
  pub destination : Text
  pub size : ℕ
  pub digest : Bytes
  pub chunk_size : ℕ
  pub chunk_count : ℕ
  pub index : ℕ
  pub offset : ℕ
  pub len : ℕ
  pub chunk_digest : Bytes
  pub authorization : Option CommandAuthorization

-- The answers carry an error text as well, which says why `accepted` is not set.
pub record TransferV2Resume : Type 0 where
  pub completed_indices : List ℕ
  pub complete : Bool

pub record TransferV2Ack : Type 0 where
  pub index : ℕ
  pub accepted : Bool
  pub complete : Bool

pub record TransferV1Request : Type 0 where
  pub destination : Text
  pub size : ℕ
  pub digest : Bytes
  pub chunk_size : ℕ
  pub authorization : Option CommandAuthorization

pub record TransferV1Resume : Type 0 where
  pub offset : ℕ
  pub complete : Bool

pub record TransferV1Chunk : Type 0 where
  pub index : ℕ
  pub offset : ℕ
  pub len : ℕ
  pub digest : Bytes

pub record TransferV1Ack : Type 0 where
  pub next_offset : ℕ
  pub complete : Bool

pub record TransferResult : Type 0 where
  pub success : Bool
  pub bytes_written : ℕ
  pub digest : Bytes
