-- ===== src/Runtime/Transfer/Finalize.antt =====
-- crates/misaka-runtime/src/runtime.rs: what a finished transfer leaves.
use misaka.Prelude.{
  ◌≡◌, refl, inl, inr, Bytes, true, Option, none, some, ◌==◌, bytes_eq, Bool-cases, arith,
}
use misaka.Prelude.Map.{lookup}
use misaka.Prelude.Result.{Result, ok, err, Result-cases}
use misaka.Core.Transfer.{TransferV2Request, TransferV2Operation, prepare, chunk, finalize}
use misaka.Core.Wire.{Wire}
use misaka.Runtime.ContentStore
use misaka.Runtime.ContentStore.{ContentStore, StoreError, copy_object}
use misaka.Runtime.Transfer.{
  TransferV2State, Site, TransferError, transfer_v2_complete, validate_transfer_v2_request,
}
use misaka.Runtime.Transfer.Handlers.{
  finished, finish_stored, finish_committed, finish_part, finish_ensured, handle_finalize,
  handle_operation, handle_valid, receive_transfer_v2,
}

module _ ⦃w : Wire⦄ where
  -- The destination holds a content of that digest.
  pub IsDelivered : Bytes → Site → Type 0
  IsDelivered digest site =
      (content : Bytes) × (site.destination ≡ some content) × (w.sha256 content ≡ digest)

  copied_hash :
      (object : Option Bytes) (digest content : Bytes)
      → copy_object object digest ≡ ok content
      → w.sha256 content ≡ digest
  unfolding copy_object
  copied_hash none digest content h = cc
  copied_hash (some bytes) digest content h = ground (arith, h)

  finish_stored-IsDelivered :
      (object : Option Bytes) (digest : Bytes) (site : Site)
      → (finish_stored (copy_object object digest) site).0 ≡ ok (finished true)
      → IsDelivered digest (finish_stored (copy_object object digest) site).1
  unfolding finish_stored IsDelivered
  finish_stored-IsDelivered object digest site h = elim (Result-cases (copy_object object digest)) [
    | inl (content, e) ↦ rw e (content, refl, copied_hash object digest content e)
    | inr (e, q) ↦ absurd (ground (arith, q, h))
  ]

  finish_committed-IsDelivered :
      (digest : Bytes) (r : Result StoreError ContentStore × Option Bytes) (site : Site)
      → (finish_committed digest r site).0 ≡ ok (finished true)
      → IsDelivered digest (finish_committed digest r site).1
  unfolding finish_committed ContentStore.materialize
  finish_committed-IsDelivered digest (err e, left) site h = cc
  finish_committed-IsDelivered digest (ok objects, left) site h =
      finish_stored-IsDelivered (lookup digest objects) digest _ h

  finish_part-IsDelivered :
      (request : TransferV2Request) (part : Option Bytes) (site : Site)
      → (finish_part request part site).0 ≡ ok (finished true)
      → IsDelivered request.digest (finish_part request part site).1
  unfolding finish_part
  finish_part-IsDelivered request none site h = cc
  finish_part-IsDelivered request (some content) site h =
      elim (Bool-cases (w.sha256 content == request.digest)) [
        | inl t ↦ rw t (finish_committed-IsDelivered request.digest _ site (rw t at h))
        | inr t ↦ absurd (unfold finished in ground (arith, rw t at h))
      ]

  finish_ensured-IsDelivered :
      (request : TransferV2Request) (r : Result TransferError (TransferV2State × Site))
      (site : Site)
      → (finish_ensured request r site).0 ≡ ok (finished true)
      → IsDelivered request.digest (finish_ensured request r site).1
  unfolding finish_ensured
  finish_ensured-IsDelivered request (err e) site h = cc
  finish_ensured-IsDelivered request (ok (state, site')) site h =
      elim (Bool-cases (transfer_v2_complete state)) [
        | inl t ↦ rw t (finish_part-IsDelivered request site'.part site' (rw t at h))
        | inr t ↦ absurd (unfold finished in ground (arith, rw t at h))
      ]

  handle_finalize-IsDelivered :
      (request : TransferV2Request) (site : Site)
      → (handle_finalize request site).0 ≡ ok (finished true)
      → IsDelivered request.digest (handle_finalize request site).1
  unfolding handle_finalize ContentStore.materialize
  handle_finalize-IsDelivered request site h =
      elim (Bool-cases (ContentStore.contains site.objects request.digest)) [
        | inl t ↦ rw t (
            finish_stored-IsDelivered (lookup request.digest site.objects) request.digest site
              (rw t at h))
        | inr t ↦ rw t (finish_ensured-IsDelivered request _ site (rw t at h))
      ]

  handle_operation-IsDelivered :
      (operation : TransferV2Operation) (request : TransferV2Request) (payload : Bytes)
      (site : Site)
      → operation ≡ finalize
      → (handle_operation operation request payload site).0 ≡ ok (finished true)
      → IsDelivered request.digest (handle_operation operation request payload site).1
  unfolding handle_operation
  handle_operation-IsDelivered prepare request payload site o h = cc
  handle_operation-IsDelivered chunk request payload site o h = cc
  handle_operation-IsDelivered finalize request payload site o h =
      handle_finalize-IsDelivered request site h

  -- When a finalize request is answered as accepted and complete, the destination holds a content
  -- whose digest is the one that the request names, whatever the files were before.
  pub receive_transfer_v2-IsDelivered :
      (request : TransferV2Request) (payload : Bytes) (site : Site)
      → request.operation ≡ finalize
      → (receive_transfer_v2 request payload site).0 ≡ ok (finished true)
      → IsDelivered request.digest (receive_transfer_v2 request payload site).1
  unfolding receive_transfer_v2 handle_valid
  receive_transfer_v2-IsDelivered request payload site o h =
      elim (Result-cases (validate_transfer_v2_request request)) [
        | inl (u, e) ↦
            rw e (handle_operation-IsDelivered request.operation request payload site o (rw e at h))
        | inr (e, q) ↦ absurd (unfold finished in ground (arith, rw q at h))
      ]
