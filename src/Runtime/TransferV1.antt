-- ===== src/Runtime/TransferV1.antt =====
-- crates/misaka-runtime/src/runtime.rs: receive_transfer_v1, the resumable file transfer, at one
-- destination. A process can stop between the writes of a chunk; a write itself is whole.
pub mod Copy
pub mod Slices
pub mod Progress
pub mod Sending
pub mod Opening
pub mod Misreported
pub mod Resumed
use misaka.Prelude.{
  ℕ, ◌+◌, ◌/◌, ◌%◌, ◌^◌, Bytes, Bool, true, false, not, ◌&&◌, ◌||◌, Option, none, some, ◌++◌, ◌==◌,
  [], nat_eq, bytes_eq, ltb, length, if◌then◌else◌,
}
use misaka.Prelude.Result.{Result, ok, err, ◌>>=◌, ◌>>◌, reject}
use misaka.Core.Transfer.{
  TransferV1Request, TransferV1Resume, TransferV1Chunk, TransferV1Ack, TransferResult,
  transfer_v1_chunk_size, transfer_digest,
}
use misaka.Core.Wire.{Wire}
use misaka.Runtime.JsonFile.{JsonFile, missing, holds, garbled}

pub record TransferV1State : Type 0 where
  pub size : ℕ
  pub digest : Bytes
  pub chunk_size : ℕ
  pub offset : ℕ

-- The files of one destination.
pub record PartSite : Type 0 where
  pub part : Option Bytes
  pub state : JsonFile TransferV1State
  pub destination : Option Bytes

-- `stopped` is the end of the process, the others are errors of the source.
pub data ReceiveError : Type 0 where
  part_not_found corrupt_data unsupported unexpected_eof bad_resume bad_ack stopped : ReceiveError

-- Where the process stops while it commits a chunk.
pub data Stop : Type 0 where
  runs before_save after_save : Stop

unfoldable pub load_transfer_v1_state :
    JsonFile TransferV1State → Result ReceiveError (Option TransferV1State)
load_transfer_v1_state missing = ok none
load_transfer_v1_state (holds state) = ok (some state)
load_transfer_v1_state garbled = err corrupt_data

unfoldable pub is_same : TransferV1Request → TransferV1State → Bool
is_same request state =
    state.size == request.size
    && state.digest == request.digest
    && state.chunk_size == request.chunk_size

unfoldable pub start_over : TransferV1Request → PartSite → TransferV1State × PartSite
start_over request site = (
  record {
    size = request.size;
    digest = request.digest;
    chunk_size = request.chunk_size;
    offset = 0;
  },
  record site { part = none; state = missing },
)

unfoldable pub keep_part :
    TransferV1Request → PartSite → Option Bytes → TransferV1State → TransferV1State × PartSite
unfolding start_over is_same
keep_part request site none state = start_over request site
keep_part request site (some part) state =
    if is_same request state then (state, site) else start_over request site

unfoldable pub keep_same :
    TransferV1Request → PartSite → Option TransferV1State → TransferV1State × PartSite
unfolding keep_part start_over
keep_same request site none = start_over request site
keep_same request site (some state) = keep_part request site site.part state

-- A part file that is not as long as the state says is made anew.
unfoldable pub align_part :
    TransferV1Request → TransferV1State → Option Bytes → TransferV1State × Bytes
align_part request state none = (record state { offset = 0 }, [])
align_part request state (some part) =
    if ltb request.size state.offset || not (length part == state.offset)
    then (record state { offset = 0 }, [])
    else (state, part)

unfoldable pub boundary_is_valid : TransferV1Request → TransferV1State → TransferV1Chunk → Bool
boundary_is_valid request state c = not (
    not (c.index == state.offset / request.chunk_size)
    || not (c.offset == state.offset)
    || c.len == 0
    || ltb request.chunk_size c.len
    || ltb request.size ((state.offset + c.len) % 2 ^ 64))

-- The check of a chunk, and its bytes at the end of the part file.
unfoldable pub append_chunk :
    TransferV1Request
    → TransferV1State
    → TransferV1Chunk
    → Bytes
    → Option Bytes
    → Result ReceiveError Bytes
unfolding boundary_is_valid
append_chunk request state c payload none =
    reject (not (boundary_is_valid request state c)) corrupt_data
    >> (reject (not (transfer_digest payload == c.digest)) corrupt_data >> err part_not_found)
append_chunk request state c payload (some part) =
    reject (not (boundary_is_valid request state c)) corrupt_data
    >> (reject (not (transfer_digest payload == c.digest)) corrupt_data >> ok (part ++ payload))

unfoldable pub advance : TransferV1State → TransferV1Chunk → TransferV1State
advance state c = record state { offset = (state.offset + c.len) % 2 ^ 64 }

unfoldable pub save_progress :
    Stop
    → TransferV1Request
    → TransferV1State
    → Bytes
    → PartSite
    → Result ReceiveError (TransferV1Ack × TransferV1State) × PartSite
save_progress before_save request next part site = (err stopped, record site { part = some part })
save_progress after_save request next part site =
    (err stopped, record site { part = some part; state = holds next })
save_progress runs request next part site = (
  ok (record { next_offset = next.offset; complete = next.offset == request.size }, next),
  record site { part = some part; state = holds next },
)

unfoldable pub commit_chunk :
    Stop
    → TransferV1Request
    → TransferV1State
    → Result ReceiveError Bytes
    → PartSite
    → Result ReceiveError (TransferV1Ack × TransferV1State) × PartSite
unfolding save_progress
commit_chunk stop request next (err e) site = (err e, site)
commit_chunk stop request next (ok part) site = save_progress stop request next part site

-- One round of the loop, up to the acknowledgement.
unfoldable pub receive_chunk :
    Stop
    → TransferV1Request
    → TransferV1State
    → TransferV1Chunk
    → Bytes
    → PartSite
    → Result ReceiveError (TransferV1Ack × TransferV1State) × PartSite
unfolding append_chunk commit_chunk advance
receive_chunk stop request state c payload site =
    commit_chunk stop request (advance state c) (append_chunk request state c payload site.part)
      site

module _ ⦃w : Wire⦄ where
  -- What a session finds: the answer to the request, and the state that it goes on from.
  unfoldable pub open_aligned :
      TransferV1Request
      → PartSite
      → TransferV1State × Bytes
      → TransferV1Resume × TransferV1State × PartSite
  open_aligned request site (state, part) =
      if state.offset == request.size && w.sha256 part == request.digest
      then (
        record { offset = state.offset; complete = true },
        state,
        record site { part = none; state = missing; destination = some part },
      )
      else if state.offset == request.size
      then (
        record { offset = 0; complete = false },
        record state { offset = 0 },
        record site { part = some []; state = holds (record state { offset = 0 }) },
      )
      else (
        record { offset = state.offset; complete = false },
        state,
        record site { part = some part },
      )

  unfoldable pub open_kept :
      TransferV1Request → TransferV1State × PartSite → TransferV1Resume × TransferV1State × PartSite
  unfolding open_aligned align_part
  open_kept request (state, site) = open_aligned request site (align_part request state site.part)

  unfoldable pub open_transfer_v1 :
      TransferV1Request
      → PartSite
      → Result ReceiveError (TransferV1Resume × TransferV1State × PartSite)
  unfolding load_transfer_v1_state keep_same open_kept
  open_transfer_v1 request site =
      reject (not (request.chunk_size == transfer_v1_chunk_size)) unsupported
      >> (load_transfer_v1_state site.state >>= λ loaded.
          ok (open_kept request (keep_same request site loaded)))

  -- After the last chunk.
  unfoldable pub finish_transfer_v1 :
      TransferV1Request
      → ℕ
      → Option Bytes
      → PartSite
      → Result ReceiveError TransferResult × PartSite
  finish_transfer_v1 request offset none site = (err part_not_found, site)
  finish_transfer_v1 request offset (some part) site =
      if w.sha256 part == request.digest
      then (
        ok (record { success = true; bytes_written = offset; digest = w.sha256 part }),
        record site { part = none; state = missing; destination = some part },
      )
      else (ok (record { success = false; bytes_written = offset; digest = w.sha256 part }), site)
