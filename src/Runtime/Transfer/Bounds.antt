-- ===== src/Runtime/Transfer/Bounds.antt =====
-- crates/misaka-runtime/src/runtime.rs: where the chunks of a valid request lie.
use misaka.Prelude.{ℕ, ◌+◌, ◌-◌, ◌*◌, ◌/◌, ◌^◌, ◌≤◌, ◌<◌, min, ◌≡◌, ◌↔◌, nat_eq, arith}
use misaka.Prelude.Result.{ok}
use misaka.Core.Transfer.{TransferV2Request, chunk}
use misaka.Runtime.Transfer.{
  div_ceil, validate_chunk, validate_operation, validate_transfer_v2_request,
}

pub validate_chunk_iff :
    (request : TransferV2Request)
    → request.operation ≡ chunk
    → (validate_transfer_v2_request request ≡ ok tt) ↔ (
        (request.chunk_size ≡ 65536)
        × (request.chunk_count ≡ (request.size + 65535) / 65536)
        × (request.chunk_count ≤ 1048576)
        × (request.index < request.chunk_count)
        × (request.offset ≡ 65536 * request.index)
        × (request.len ≡ min (request.size - request.offset) 65536))
unfolding validate_transfer_v2_request validate_operation validate_chunk div_ceil
validate_chunk_iff request o = (λ h. ground (arith, o, h), λ h. ground (arith, o, h))

-- The chunk of a request that validates is not empty and lies inside the file, the product that gives
-- its offset does not leave the 64-bit range, and the bytes that it covers are exactly those of the
-- file whose position divided by the chunk size is its index, so that the chunks tile the file.
pub chunk_tiles :
    (request : TransferV2Request) (position : ℕ)
    → request.operation ≡ chunk
    → validate_transfer_v2_request request ≡ ok tt
    → (1 ≤ request.len)
      × (request.offset + request.len ≤ request.size)
      × (request.index * request.chunk_size ≡ request.offset)
      × (request.offset < 2 ^ 64)
      × (((request.offset ≤ position) × (position < request.offset + request.len))
          ↔ ((position < request.size) × (position / request.chunk_size ≡ request.index)))
chunk_tiles request position o h =
    let (c, n, m, i, f, l) = (validate_chunk_iff request o).0 h in
    (
      omega (arith, c, n, m, i, f, l),
      omega (arith, c, n, m, i, f, l),
      rw c (omega (arith, f)),
      omega (arith, c, n, m, i, f, l),
      rw c (
        λ b. (omega (arith, c, n, m, i, f, l, b.0, b.1), omega (arith, c, n, m, i, f, l, b.0, b.1)),
        λ b. (omega (arith, c, n, m, i, f, l, b.0, b.1), omega (arith, c, n, m, i, f, l, b.0, b.1)),
      ),
    )
