-- ===== src/Runtime/TransferV1/Resumed.antt =====
-- crates/misaka-runtime/src/runtime.rs: a resumable copy that is cut off goes on from where it was.
use misaka.Prelude.{
  ◌+◌, ◌^◌, ◌<◌, ◌≡◌, sym, ap, ◌∙◌, inl, inr, Bytes, true, some, List, [], ◌∷◌, nat_eq, bytes_eq,
  length, length-append, replicate, Bool-cases, arith,
}
use misaka.Core.Transfer.{TransferV1Request, TransferV1Resume, transfer_v1_chunk_size}
use misaka.Core.Wire.{Wire}
use misaka.Runtime.JsonFile.{missing}
use misaka.Runtime.TransferV1.{TransferV1State, PartSite, Stop, runs}
use misaka.Runtime.TransferV1.Copy.{check_resume, resume_copy, run_copy_v1, attempts}
use misaka.Runtime.TransferV1.Progress.{IsReady, IsFor, InSession}
use misaka.Runtime.TransferV1.Sending.{send_chunks-IsReady, send_chunks-delivers}
use misaka.Runtime.TransferV1.Opening.{Opened, open_transfer_v1-Opened}

module _ ⦃w : Wire⦄ where
  -- What the sender makes of an open session: it sends on where it can.
  check_resume-InSession :
      (file : Bytes) (request : TransferV1Request) (resume : TransferV1Resume)
      (state : TransferV1State) (site : PartSite)
      → IsFor file request
      → resume.offset ≡ state.offset
      → InSession file state site
      → check_resume request.size resume ≡ true
  unfolding check_resume
  check_resume-InSession file request resume state site f same s =
      let total : length s.part + length s.rest ≡ length file =
        sym (length-append s.part s.rest) ∙ ap length s.whole in
      (rw same ground (arith, f.size, s.offset, s.ends, total))

  run_copy_v1-IsReady :
      (file : Bytes) (request : TransferV1Request) (stops : List Stop) (site : PartSite)
      → IsFor file request
      → IsReady file site
      → IsReady file (run_copy_v1 stops request file site).1
  unfolding run_copy_v1 resume_copy Opened IsReady
  run_copy_v1-IsReady file request stops site f ready =
      let ((resume, state, opened), e, found) = open_transfer_v1-Opened file request site f ready in
      (rw e (elim found [
        | inl (complete, gone, _) ↦ elim (Bool-cases (check_resume request.size resume)) [
          | inl good ↦ rw (good, complete) (inl gone)
          | inr bad ↦ rw bad (inl gone)
        ]
        | inr (more, same, s) ↦
            rw (check_resume-InSession file request resume state opened f same s, more, same)
              (send_chunks-IsReady file request stops state opened f s)
      ]))

  run_copy_v1-delivers :
      (file : Bytes) (request : TransferV1Request) (site : PartSite)
      → IsFor file request
      → IsReady file site
      → (run_copy_v1 (replicate (length file) runs) request file site).1.destination ≡ some file
  unfolding run_copy_v1 resume_copy Opened
  run_copy_v1-delivers file request site f ready =
      let ((resume, state, opened), e, found) = open_transfer_v1-Opened file request site f ready in
      (rw e (elim found [
        | inl (complete, gone, there) ↦ elim (Bool-cases (check_resume request.size resume)) [
          | inl good ↦ rw (good, complete) there
          | inr bad ↦ rw bad there
        ]
        | inr (more, same, s) ↦
            rw (check_resume-InSession file request resume state opened f same s, more, same)
              (send_chunks-delivers file request (length file) state opened f s (omega arith))
      ]))

  attempts-IsReady :
      (file : Bytes) (request : TransferV1Request) (cuts : List (List Stop)) (site : PartSite)
      → IsFor file request
      → IsReady file site
      → IsReady file (attempts cuts request file site)
  unfolding attempts
  attempts-IsReady file request [] site f ready = ready
  attempts-IsReady file request (stops ∷ cuts) site f ready =
      attempts-IsReady file request cuts (run_copy_v1 stops request file site).1 f
        (run_copy_v1-IsReady file request stops site f ready)

  -- A resumable copy arrives in the end. After any copies of a file to a destination that had no
  -- state file, each cut off after any chunk, between the write of a chunk and that of the state, or
  -- between the last chunk and the rename, a copy that is not cut off leaves the file at the
  -- destination. The requests are for the file's size and digest, in chunks of the protocol's size.
  pub copy_resumed :
      (file : Bytes) (request : TransferV1Request) (cuts : List (List Stop)) (site : PartSite)
      → site.state ≡ missing
      → request.size ≡ length file
      → request.chunk_size ≡ transfer_v1_chunk_size
      → w.sha256 file ≡ request.digest
      → length file < 2 ^ 64
      → (run_copy_v1
          (replicate (length file) runs)
          request
          file
          (attempts cuts request file site)).1.destination
        ≡ some file
  unfolding IsReady
  copy_resumed file request cuts site fresh size chunk digest bound =
      let f : IsFor file request = record {
        size = size;
        chunk = chunk;
        digest = digest;
        bound = bound;
      } in
      run_copy_v1-delivers file request (attempts cuts request file site) f
        (attempts-IsReady file request cuts site f (inl fresh))
