-- ===== src/Runtime/TransferTests.antt =====
-- crates/misaka-runtime: the theorems on file transfers at concrete data.
use misaka.Prelude.{
  ℕ, zero, suc, ◌*◌, ◌/◌, ◌^◌, ◌≤◌, ◌<◌, ◌≡◌, refl, ◌↔◌, Bytes, true, some, none, [], ◌∷◌, codes,
  any, arith, ℕ_discrete, Bytes-discrete,
}
use misaka.Prelude.Map
use misaka.Prelude.Result.{ok}
use misaka.Core.Transfer.{TransferV2Request, chunk, finalize, transfer_digest}
use misaka.Runtime.JsonFile.{missing}
use misaka.Runtime.ContentStore
use misaka.Runtime.Transfer.{Site, restart, validate_transfer_v2_request}
use misaka.Runtime.Transfer.Handlers.{finished, handle_finalize, receive_transfer_v2}
use misaka.Runtime.Transfer.Bounds.{chunk_tiles}
use misaka.Runtime.Transfer.Finalize.{IsDelivered, receive_transfer_v2-IsDelivered}
use misaka.Runtime.Transfer.Workers.{writes, marks, is_mark, run, IsOrdered}
use misaka.Runtime.Transfer.Delivery.{transfer_delivered}
use misaka.Fixtures.{toy}

-- A file of three bytes, whose digest in the toy scheme is itself, and its one chunk.
abbrev file : Bytes
file = 7 ∷ 8 ∷ 9 ∷ []

abbrev request : TransferV2Request
request = record {
  operation = chunk;
  destination = codes "out";
  size = 3;
  digest = file;
  chunk_size = 65536;
  chunk_count = 1;
  index = 0;
  offset = 0;
  len = 3;
  chunk_digest = [];
  authorization = none;
}

abbrev finalizing : TransferV2Request
finalizing = record request { operation = finalize; len = 0 }

abbrev empty_site : Site
empty_site = record { objects = []; part = none; state = missing; destination = none }

abbrev stored_site : Site
stored_site = record empty_site { objects = (file, file) ∷ [] }

digest_of_two :
    transfer_digest (1 ∷ 2 ∷ [])
    ≡ 42 ∷ 144 ∷ 232 ∷ 180 ∷ 7 ∷ 36 ∷ 47 ∷ 8 ∷ 71 ∷ 44 ∷ 196 ∷ 4 ∷ 203 ∷ 248 ∷ 31 ∷ 54 ∷ 16 ∷ 62
      ∷ 100 ∷ 28 ∷ 6 ∷ 85 ∷ 113 ∷ 205 ∷ 252 ∷ 14 ∷ 102 ∷ 43 ∷ 254 ∷ 68 ∷ 93 ∷ 214 ∷ []
unfolding transfer_digest
digest_of_two = refl

is_chunk_valid : validate_transfer_v2_request request ≡ ok tt
unfolding validate_transfer_v2_request ℕ_discrete
is_chunk_valid = refl

chunk_tiles_example :
    (1 ≤ 3)
    × (3 ≤ 3)
    × (request.index * request.chunk_size ≡ 0)
    × (0 < 2 ^ 64)
    × (((0 ≤ 2) × (2 < 3)) ↔ ((2 < 3) × (2 / 65536 ≡ 0)))
chunk_tiles_example = chunk_tiles request 2 refl is_chunk_valid

receive_transfer_v2-IsDelivered_example :
    IsDelivered file (receive_transfer_v2 finalizing [] stored_site).1
unfolding receive_transfer_v2 validate_transfer_v2_request ContentStore.contains
    ContentStore.materialize Map.lookup ℕ_discrete Bytes-discrete
receive_transfer_v2-IsDelivered_example =
    receive_transfer_v2-IsDelivered finalizing [] stored_site refl refl

only_chunk : (i : ℕ) → i < 1 → any (is_mark i) (writes 0 ∷ marks 0 ∷ []) ≡ true
unfolding is_mark ℕ_discrete
only_chunk zero h = refl
only_chunk (suc i) h = absurd (omega (arith, h))

transfer_delivered_example :
    (last : Site) × (run file finalizing (restart finalizing empty_site).1 (writes 0 ∷ marks 0 ∷ [])
      ≡ ok last)
    × ((handle_finalize finalizing last).0 ≡ ok (finished true))
    × ((handle_finalize finalizing last).1.destination ≡ some file)
unfolding ContentStore.contains Map.lookup IsOrdered ℕ_discrete
transfer_delivered_example =
    transfer_delivered file finalizing empty_site (writes 0 ∷ marks 0 ∷ []) refl refl refl refl
      (omega arith, (refl, tt)) only_chunk
