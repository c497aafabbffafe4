-- ===== src/Runtime/TransferV1/Copy.antt =====
-- crates/misaka-cli/src/main.rs: run_copy_v1, the sending end of the resumable transfer, against
-- receive_transfer_v1 of crates/misaka-runtime/src/runtime.rs. The two ends take turns.
use misaka.Prelude.{
  ℕ, ◌+◌, ◌-◌, ◌/◌, ◌%◌, min, Bytes, Bool, true, not, ◌||◌, List, [], ◌∷◌, ◌==◌, nat_eq, ltb,
  length, if◌then◌else◌,
}
use misaka.Prelude.Result.{Result, ok, err}
use misaka.Core.Transfer.{
  TransferV1Request, TransferV1Resume, TransferV1Chunk, TransferV1Ack, TransferResult,
  transfer_v1_chunk_size, transfer_digest,
}
use misaka.Core.Wire.{Wire}
use misaka.Runtime.Transfer.Part.{slice}
use misaka.Runtime.TransferV1.{
  TransferV1State, PartSite, ReceiveError, unexpected_eof, bad_resume, bad_ack, Stop, receive_chunk,
  open_transfer_v1, finish_transfer_v1,
}

-- A read of the source file fills the buffer while it can.
unfoldable pub read_payload_at : Bytes → ℕ → Bytes
read_payload_at file sent = slice sent (min transfer_v1_chunk_size (length file - sent)) file

unfoldable pub chunk_at : Bytes → ℕ → TransferV1Chunk
unfolding read_payload_at
chunk_at file sent = record {
  index = sent / transfer_v1_chunk_size;
  offset = sent;
  len = length (read_payload_at file sent);
  digest = transfer_digest (read_payload_at file sent);
}

unfoldable pub check_resume : ℕ → TransferV1Resume → Bool
check_resume size resume =
    not (ltb size resume.offset || not (resume.offset % transfer_v1_chunk_size == 0))

module _ ⦃w : Wire⦄ where
  -- After the answer to a chunk: the next chunk, or the result.
  unfoldable pub continue_copy :
      (ℕ → TransferV1State → PartSite → Result ReceiveError TransferResult × PartSite)
      → TransferV1Request
      → ℕ
      → Result ReceiveError (TransferV1Ack × TransferV1State) × PartSite
      → Result ReceiveError TransferResult × PartSite
  unfolding finish_transfer_v1
  continue_copy more request expected (err e, site) = (err e, site)
  continue_copy more request expected (ok (ack, state), site) =
      if not (ack.next_offset == expected)
      then (err bad_ack, site)
      else if ack.complete
      then finish_transfer_v1 request state.offset site.part site
      else more ack.next_offset state site

  -- The connection is lost after the chunks of the list.
  unfoldable pub send_chunks :
      List Stop
      → TransferV1Request
      → Bytes
      → ℕ
      → TransferV1State
      → PartSite
      → Result ReceiveError TransferResult × PartSite
  unfolding receive_chunk chunk_at continue_copy
  send_chunks [] request file sent state site = (err unexpected_eof, site)
  send_chunks (stop ∷ stops) request file sent state site =
      continue_copy (send_chunks stops request file) request
        (sent + length (read_payload_at file sent))
        (receive_chunk stop request state (chunk_at file sent) (read_payload_at file sent) site)

  unfoldable pub resume_copy :
      List Stop
      → TransferV1Request
      → Bytes
      → Result ReceiveError (TransferV1Resume × TransferV1State × PartSite)
      → PartSite
      → Result ReceiveError TransferResult × PartSite
  unfolding check_resume send_chunks
  resume_copy stops request file (err e) site = (err e, site)
  resume_copy stops request file (ok (resume, state, opened)) site =
      if not (check_resume request.size resume)
      then (err bad_resume, opened)
      else if resume.complete
      then (
        ok (record { success = true; bytes_written = request.size; digest = request.digest }),
        opened,
      )
      else send_chunks stops request file resume.offset state opened

  unfoldable pub run_copy_v1 :
      List Stop
      → TransferV1Request
      → Bytes
      → PartSite
      → Result ReceiveError TransferResult × PartSite
  unfolding open_transfer_v1 resume_copy
  run_copy_v1 stops request file site =
      resume_copy stops request file (open_transfer_v1 request site) site

  -- Copies one after the other, each cut off as its list says.
  unfoldable pub attempts : List (List Stop) → TransferV1Request → Bytes → PartSite → PartSite
  unfolding run_copy_v1
  attempts [] request file site = site
  attempts (stops ∷ more) request file site =
      attempts more request file (run_copy_v1 stops request file site).1
