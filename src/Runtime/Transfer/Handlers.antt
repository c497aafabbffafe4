-- ===== src/Runtime/Transfer/Handlers.antt =====
-- crates/misaka-runtime/src/runtime.rs: the three branches of receive_transfer_v2, on a request that
-- has been read and authorized.
use misaka.Prelude.{
  ℕ, zero, suc, Bytes, Bool, true, false, not, Option, none, some, [], ◌∷◌, ◌==◌, bytes_eq,
  if◌then◌else◌,
}
use misaka.Prelude.Result.{Result, ok, err, ◌>>=◌, ◌>>◌, reject}
use misaka.Core.Transfer.{
  TransferV2Request, TransferV2Operation, prepare, chunk, finalize, TransferV2Resume, TransferV2Ack,
  transfer_digest,
}
use misaka.Core.Wire.{Wire}
use misaka.Runtime.JsonFile.{missing, holds}
use misaka.Runtime.ContentStore
use misaka.Runtime.ContentStore.{ContentStore, StoreError}
use misaka.Runtime.Transfer.{
  TransferV2State, Site, TransferError, not_found, invalid_data, filter_below,
  transfer_v2_is_completed, transfer_v2_mark_completed, transfer_v2_complete,
  completed_transfer_v2_indices, ensure_transfer_v2_state, validate_transfer_v2_request,
}

-- The answer to one request.
pub data Reply : Type 0 where
  resume : TransferV2Resume → Reply
  ack : TransferV2Ack → Reply

-- `payload` over the start of `content`
unfoldable pub overlay : Bytes → Bytes → Bytes
overlay [] content = content
overlay (p ∷ payload) [] = p ∷ overlay payload []
overlay (p ∷ payload) (c ∷ content) = p ∷ overlay payload content

-- A seek and a write: a gap before the offset reads as zeros.
unfoldable pub write_at : Bytes → ℕ → Bytes → Bytes
unfolding overlay
write_at content zero payload = overlay payload content
write_at [] (suc offset) payload = 0 ∷ write_at [] offset payload
write_at (c ∷ content) (suc offset) payload = c ∷ write_at content offset payload

-- The first stretch under the lock: is the chunk there already?
unfoldable pub check_chunk : TransferV2Request → Site → Result TransferError (Bool × Site)
check_chunk request site = ensure_transfer_v2_state request site >>= λ (state, site').
    ok (transfer_v2_is_completed state request.index, site')

unfoldable pub write_part : Option Bytes → ℕ → Bytes → Site → Result TransferError Site
unfolding write_at
write_part none offset payload site = err not_found
write_part (some part) offset payload site =
    ok (record site { part = some (write_at part offset payload) })

-- Outside the lock: the payload goes into the part file.
unfoldable pub write_chunk : TransferV2Request → Bytes → Site → Result TransferError Site
unfolding write_part
write_chunk request payload site = write_part site.part request.offset payload site

-- The second stretch under the lock: the chunk is marked and the state saved.
unfoldable pub mark_chunk : TransferV2Request → Site → Result TransferError Site
mark_chunk request site = ensure_transfer_v2_state request site >>= λ (state, site'). ok (
    if transfer_v2_is_completed state request.index
    then site'
    else record site' { state = holds (transfer_v2_mark_completed state request.index) })

-- The last stretch under the lock.
unfoldable pub ack_chunk : TransferV2Request → Site → Result TransferError (Reply × Site)
ack_chunk request site = ensure_transfer_v2_state request site >>= λ (state, site'). ok (
  ack (record { index = request.index; accepted = true; complete = transfer_v2_complete state }),
  site',
)

unfoldable pub store_chunk : TransferV2Request → Bytes → Bool × Site → Result TransferError Site
store_chunk request payload (true, site) = ok site
store_chunk request payload (false, site) = write_chunk request payload site >>= mark_chunk request

-- TransferV2Operation::Chunk, with the payload that was read for it
unfoldable pub handle_chunk : TransferV2Request → Bytes → Site → Result TransferError (Reply × Site)
unfolding check_chunk store_chunk ack_chunk
handle_chunk request payload site =
    reject (not (transfer_digest payload == request.chunk_digest)) invalid_data
    >> (check_chunk request site >>= store_chunk request payload >>= ack_chunk request)

unfoldable pub from_store : StoreError → TransferError
from_store StoreError.not_found = not_found
from_store StoreError.invalid_data = invalid_data

unfoldable pub finished : Bool → Reply
finished accepted = ack (record { index = 0; accepted = accepted; complete = accepted })

-- The loading of the state is all that can fail before a file is changed.
unfoldable pub settle :
    Site → Result TransferError (Reply × Site) → Result TransferError Reply × Site
settle site (ok (reply, site')) = (ok reply, site')
settle site (err e) = (err e, site)

module _ ⦃w : Wire⦄ where
  -- TransferV2Operation::Prepare
  unfoldable pub handle_prepare : TransferV2Request → Site → Result TransferError (Reply × Site)
  handle_prepare request site =
      if ContentStore.contains site.objects request.digest
      then ok (
        resume (record {
          completed_indices = filter_below request.chunk_count (λ _. true);
          complete = true;
        }),
        site,
      )
      else ensure_transfer_v2_state request site >>= λ (state, site'). ok (
        resume (record {
          completed_indices = completed_transfer_v2_indices state;
          complete = transfer_v2_complete state;
        }),
        site',
      )

  unfoldable pub finish_stored : Result StoreError Bytes → Site → Result TransferError Reply × Site
  unfolding finished from_store
  finish_stored (ok content) site =
      (ok (finished true), record site { destination = some content; state = missing })
  finish_stored (err e) site = (err (from_store e), site)

  unfoldable pub finish_committed :
      Bytes
      → Result StoreError ContentStore × Option Bytes
      → Site
      → Result TransferError Reply × Site
  unfolding finish_stored
  finish_committed digest (err e, left) site = (err (from_store e), record site { part = left })
  finish_committed digest (ok objects, left) site =
      finish_stored (ContentStore.materialize objects digest)
        (record site { objects = objects; part = left })

  unfoldable pub finish_part :
      TransferV2Request → Option Bytes → Site → Result TransferError Reply × Site
  unfolding finish_committed
  finish_part request none site = (err not_found, site)
  finish_part request (some content) site =
      if w.sha256 content == request.digest
      then finish_committed request.digest
          (ContentStore.commit_verified_file site.objects (some content) request.digest) site
      else (ok (finished false), record site { part = none; state = missing })

  unfoldable pub finish_ensured :
      TransferV2Request
      → Result TransferError (TransferV2State × Site)
      → Site
      → Result TransferError Reply × Site
  unfolding finish_part
  finish_ensured request (err e) site = (err e, site)
  finish_ensured request (ok (state, site')) site =
      if transfer_v2_complete state
      then finish_part request site'.part site'
      else (ok (finished false), site')

  -- TransferV2Operation::Finalize
  unfoldable pub handle_finalize : TransferV2Request → Site → Result TransferError Reply × Site
  unfolding finish_ensured
  handle_finalize request site =
      if ContentStore.contains site.objects request.digest
      then finish_stored (ContentStore.materialize site.objects request.digest) site
      else finish_ensured request (ensure_transfer_v2_state request site) site

  unfoldable pub handle_operation :
      TransferV2Operation → TransferV2Request → Bytes → Site → Result TransferError Reply × Site
  unfolding settle handle_prepare handle_chunk handle_finalize
  handle_operation prepare request payload site = settle site (handle_prepare request site)
  handle_operation chunk request payload site = settle site (handle_chunk request payload site)
  handle_operation finalize request payload site = handle_finalize request site

  unfoldable pub handle_valid :
      Result TransferError (Unit {0})
      → TransferV2Request
      → Bytes
      → Site
      → Result TransferError Reply × Site
  unfolding handle_operation
  handle_valid (err e) request payload site = (err e, site)
  handle_valid (ok u) request payload site = handle_operation request.operation request payload site

  -- One worker's stream, from the validation on.
  unfoldable pub receive_transfer_v2 :
      TransferV2Request → Bytes → Site → Result TransferError Reply × Site
  unfolding handle_valid
  receive_transfer_v2 request payload site =
      handle_valid (validate_transfer_v2_request request) request payload site
