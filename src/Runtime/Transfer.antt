-- ===== src/Runtime/Transfer.antt =====
-- crates/misaka-runtime/src/runtime.rs: receive_transfer_v2, the parallel-chunk file transfer, at one
-- destination. Each stretch of the handlers that holds the lock, and the write outside it, is one
-- definition, so that workers interleave as sequences of them.
pub mod Bitmap
pub mod Bounds
pub mod Part
pub mod Workers
pub mod Progress
pub mod Delivery
pub mod Handlers
pub mod Finalize
use Prim.Native.Nat.{bit_and, bit_or}
use misaka.Prelude.{
  ℕ, zero, suc, ◌+◌, ◌-◌, ◌*◌, ◌/◌, ◌%◌, ◌^◌, min, Bytes, Bool, true, false, not, ◌&&◌, ◌||◌,
  Option, none, some, List, [], ◌∷◌, ◌++◌, ◌==◌, nat_eq, bytes_eq, ltb, length, get_or, replicate,
  is_some_and, if◌then◌else◌,
}
use misaka.Prelude.Result.{Result, ok, err, ◌>>=◌, ◌>>◌, reject}
use misaka.Core.Transfer.{
  TransferV2Request, TransferV2Operation, prepare, chunk, finalize, TransferV2Resume, TransferV2Ack,
  transfer_v1_chunk_size, transfer_digest,
}
use misaka.Core.Wire.{Wire}
use misaka.Runtime.JsonFile.{JsonFile, missing, holds, garbled}
use misaka.Runtime.ContentStore
use misaka.Runtime.ContentStore.{ContentStore, StoreError}

-- TRANSFER_V2_MAX_CHUNKS
abbrev pub transfer_v2_max_chunks : ℕ
transfer_v2_max_chunks = 1048576

pub record TransferV2State : Type 0 where
  pub size : ℕ
  pub digest : Bytes
  pub chunk_size : ℕ
  pub chunk_count : ℕ
  pub completed : Bytes

-- The files of one destination, and the store.
pub record Site : Type 0 where
  pub objects : ContentStore
  pub part : Option Bytes
  pub state : JsonFile TransferV2State
  pub destination : Option Bytes

pub data TransferError : Type 0 where
  not_found invalid_data invalid_input : TransferError

-- u64::div_ceil
unfoldable pub div_ceil : ℕ → ℕ → ℕ
div_ceil n zero = 0
div_ceil n (suc d) = (n + d) / suc d

unfoldable pub validate_chunk : TransferV2Request → Result TransferError (Unit {0})
validate_chunk request =
    let expected_offset = request.index * request.chunk_size % 2 ^ 64 in
    let expected_len = min (request.size - expected_offset) request.chunk_size in
    reject (not (ltb request.index request.chunk_count)) invalid_input
    >> reject (not (request.offset == expected_offset) || not (request.len == expected_len))
        invalid_input

unfoldable pub validate_operation :
    TransferV2Operation → TransferV2Request → Result TransferError (Unit {0})
unfolding validate_chunk
validate_operation chunk request = validate_chunk request
validate_operation prepare request =
    reject (not (request.index == 0) || not (request.offset == 0) || not (request.len == 0))
      invalid_input
validate_operation finalize request =
    reject (not (request.index == 0) || not (request.offset == 0) || not (request.len == 0))
      invalid_input

unfoldable pub validate_transfer_v2_request : TransferV2Request → Result TransferError (Unit {0})
unfolding div_ceil validate_operation
validate_transfer_v2_request request =
    reject (not (request.chunk_size == transfer_v1_chunk_size)) invalid_input
    >> (reject
          (not (request.chunk_count == div_ceil request.size request.chunk_size)
            || ltb transfer_v2_max_chunks request.chunk_count)
          invalid_input
        >> validate_operation request.operation request)

unfoldable pub transfer_v2_bitmap_len : ℕ → ℕ
unfolding div_ceil
transfer_v2_bitmap_len chunk_count = div_ceil chunk_count 8

unfoldable pub transfer_v2_is_completed : TransferV2State → ℕ → Bool
transfer_v2_is_completed state index =
    not (bit_and (get_or state.completed (index / 8) 0) (2 ^ (index % 8)) == 0)

-- `bytes[i] |= bits`
unfoldable pub or_at : Bytes → ℕ → ℕ → Bytes
or_at [] i bits = []
or_at (b ∷ bytes) zero bits = bit_or b bits ∷ bytes
or_at (b ∷ bytes) (suc i) bits = b ∷ or_at bytes i bits

unfoldable pub transfer_v2_mark_completed : TransferV2State → ℕ → TransferV2State
unfolding or_at
transfer_v2_mark_completed state index = record state {
  completed = or_at state.completed (index / 8) (2 ^ (index % 8));
}

-- (0..n).all
unfoldable pub all_below : ℕ → (ℕ → Bool) → Bool
all_below zero p = true
all_below (suc n) p = all_below n p && p n

-- (0..n).filter(p).collect()
unfoldable pub filter_below : ℕ → (ℕ → Bool) → List ℕ
filter_below zero p = []
filter_below (suc n) p = filter_below n p ++ (if p n then n ∷ [] else [])

unfoldable pub transfer_v2_complete : TransferV2State → Bool
unfolding all_below transfer_v2_is_completed
transfer_v2_complete state = all_below state.chunk_count (transfer_v2_is_completed state)

unfoldable pub completed_transfer_v2_indices : TransferV2State → List ℕ
unfolding filter_below transfer_v2_is_completed
completed_transfer_v2_indices state =
    filter_below state.chunk_count (transfer_v2_is_completed state)

unfoldable pub load_transfer_v2_state :
    JsonFile TransferV2State → Result TransferError (Option TransferV2State)
load_transfer_v2_state missing = ok none
load_transfer_v2_state (holds state) = ok (some state)
load_transfer_v2_state garbled = err invalid_data

unfoldable pub is_current : TransferV2Request → TransferV2State → Bool
unfolding transfer_v2_bitmap_len
is_current request state =
    state.size == request.size
    && state.digest == request.digest
    && state.chunk_size == request.chunk_size
    && state.chunk_count == request.chunk_count
    && length state.completed == transfer_v2_bitmap_len state.chunk_count

unfoldable pub fresh_state : TransferV2Request → TransferV2State
unfolding transfer_v2_bitmap_len
fresh_state request = record {
  size = request.size;
  digest = request.digest;
  chunk_size = request.chunk_size;
  chunk_count = request.chunk_count;
  completed = replicate (transfer_v2_bitmap_len request.chunk_count) 0;
}

-- The part file is made anew, of the right length, and the state with it.
unfoldable pub restart : TransferV2Request → Site → TransferV2State × Site
unfolding fresh_state
restart request site = (
  fresh_state request,
  record site { part = some (replicate request.size 0); state = holds (fresh_state request) },
)

unfoldable pub keep_state :
    TransferV2Request → Site → Option Bytes → TransferV2State → TransferV2State × Site
unfolding restart is_current
keep_state request site none state = restart request site
keep_state request site (some part) state =
    if is_current request state then (state, site) else restart request site

unfoldable pub keep_loaded :
    TransferV2Request → Site → Option TransferV2State → TransferV2State × Site
unfolding keep_state restart
keep_loaded request site none = restart request site
keep_loaded request site (some state) = keep_state request site site.part state

unfoldable pub ensure_transfer_v2_state :
    TransferV2Request → Site → Result TransferError (TransferV2State × Site)
unfolding load_transfer_v2_state keep_loaded
ensure_transfer_v2_state request site =
    load_transfer_v2_state site.state >>= λ loaded. ok (keep_loaded request site loaded)
