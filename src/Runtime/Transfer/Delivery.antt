-- ===== src/Runtime/Transfer/Delivery.antt =====
-- crates/misaka-runtime/src/runtime.rs: a transfer whose workers have all marked their chunks is
-- delivered.
use misaka.Prelude.{
  ℕ, ◌+◌, ◌/◌, ◌<◌, ◌≡◌, refl, ap, ◌∙◌, Bytes, true, false, none, some, List, [], ◌==◌, nat_eq,
  bytes_eq, length, any, arith,
}
use misaka.Prelude.Map.{insert, lookup-insert}
use misaka.Prelude.Result.{ok}
use misaka.Core.Transfer.{TransferV2Request}
use misaka.Core.Wire.{Wire}
use misaka.Runtime.ContentStore
use misaka.Runtime.ContentStore.{ContentStore, copy_object}
use misaka.Runtime.Transfer.{
  TransferV2State, Site, transfer_v2_complete, ensure_transfer_v2_state, restart,
}
use misaka.Runtime.Transfer.Handlers.{
  handle_finalize, finish_ensured, finish_part, finish_committed, finish_stored, finished,
}
use misaka.Runtime.Transfer.Progress.{run_keeps, complete_part, restart-InProgress}
use misaka.Runtime.Transfer.Workers.{Event, is_mark, ensure_current, run, IsOrdered}

module _ ⦃w : Wire⦄ where
  commit-fresh :
      (objects : ContentStore) (content digest : Bytes)
      → w.sha256 content ≡ digest
      → ContentStore.contains objects digest ≡ false
      → ContentStore.commit_verified_file objects (some content) digest
        ≡ (ok (insert digest content objects), none)
  unfolding ContentStore.commit_verified_file ContentStore.commit_file
  commit-fresh objects content digest d c =
      let hash : (w.sha256 content == digest) ≡ true = ground (arith, d) in rw (hash, c) refl

  materialize-insert :
      (objects : ContentStore) (content digest : Bytes)
      → w.sha256 content ≡ digest
      → ContentStore.materialize (insert digest content objects) digest ≡ ok content
  unfolding ContentStore.materialize
  materialize-insert objects content digest d =
      let hash : (w.sha256 content == digest) ≡ true = ground (arith, d) in
      let same : (digest == digest) ≡ true = ground arith in
      rw (lookup-insert digest digest content objects, same) (unfold copy_object in rw hash refl)

  -- A complete part file of the right digest goes into the store and to the destination.
  handle_finalize_complete :
      (request : TransferV2Request) (site : Site) (state : TransferV2State) (content : Bytes)
      → ContentStore.contains site.objects request.digest ≡ false
      → ensure_transfer_v2_state request site ≡ ok (state, site)
      → transfer_v2_complete state ≡ true
      → site.part ≡ some content
      → w.sha256 content ≡ request.digest
      → ((handle_finalize request site).0 ≡ ok (finished true))
        × ((handle_finalize request site).1.destination ≡ some content)
  unfolding handle_finalize finish_ensured
  handle_finalize_complete request site state content c e t p d =
      let hash : (w.sha256 content == request.digest) ≡ true = ground (arith, d) in
      rw (c, e, t, p, finish_part, hash, commit-fresh site.objects content request.digest d c)
        (unfold finish_committed finish_stored in
          rw (materialize-insert site.objects content request.digest d) (refl, refl))

  -- The transfer of a file delivers it. From the files that a prepare request makes anew, the workers
  -- write and mark their chunks in any interleaving in which each marks its chunk only after it is
  -- written; once all chunks are marked, the finalize request, which is taken up after its validation,
  -- is accepted and the destination holds the file. This is for requests of the file's size, chunk
  -- count and digest, when the store has no object of that digest.
  pub transfer_delivered :
      (file : Bytes) (base : TransferV2Request) (site : Site) (events : List Event)
      → base.size ≡ length file
      → base.chunk_count ≡ (base.size + 65535) / 65536
      → w.sha256 file ≡ base.digest
      → ContentStore.contains site.objects base.digest ≡ false
      → IsOrdered file base [] events
      → ((i : ℕ) → i < base.chunk_count → any (is_mark i) events ≡ true)
      → (last : Site) × (run file base (restart base site).1 events ≡ ok last)
        × ((handle_finalize base last).0 ≡ ok (finished true))
        × ((handle_finalize base last).1.destination ≡ some file)
  transfer_delivered file base site events sized counted d c o all =
      let (written, marked, last, r, v, marks_all) =
        run_keeps file base sized counted site.objects [] [] (restart base site).1 events o
          (restart-InProgress file base site) in
      let (same, done) =
        complete_part file base sized counted site.objects written marked last v
          (λ i k. marks_all i (ground (arith, all i k))) in
      let (accepted, delivered) =
        handle_finalize_complete base last v.current v.content (rw v.same_objects c)
          (ensure_current base last v.current v.content v.is_saved v.is_part v.is_for_base) done
          v.is_part (ap w.sha256 same ∙ d) in
      (last, r, accepted, delivered ∙ ap some same)
