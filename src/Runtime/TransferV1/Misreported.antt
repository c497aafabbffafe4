-- ===== src/Runtime/TransferV1/Misreported.antt =====
-- crates/misaka-cli/src/main.rs: a copy that arrived and is reported as failed.
use misaka.Prelude.{
  ◌%◌, ◌^◌, ◌<◌, ◌≡◌, refl, ap, ◌∙◌, Bytes, true, false, none, some, List, not, ◌||◌, ltb, ◌==◌,
  nat_eq, bytes_eq, length, arith,
}
use misaka.Prelude.Result.{ok, err}
use misaka.Core.Transfer.{TransferV1Request, transfer_v1_chunk_size}
use misaka.Core.Wire.{Wire}
use misaka.Runtime.JsonFile.{missing, holds}
use misaka.Runtime.TransferV1.{
  TransferV1State, PartSite, Stop, open_kept, open_aligned, align_part, keep_same, keep_part,
  is_same, load_transfer_v1_state,
}
use misaka.Runtime.TransferV1.Copy.{check_resume, resume_copy, run_copy_v1}
use misaka.Runtime.TransferV1.Progress.{IsFor}
use misaka.Runtime.TransferV1.{bad_resume}
use misaka.Runtime.TransferV1.Opening.{open_loaded}

module _ ⦃w : Wire⦄ where
  open_complete :
      (file : Bytes) (request : TransferV1Request) (site : PartSite) (saved : TransferV1State)
      → IsFor file request
      → site.part ≡ some file
      → is_same request saved ≡ true
      → saved.offset ≡ request.size
      → open_kept request (keep_same request site (some saved)) ≡ (
        record { offset = saved.offset; complete = true },
        saved,
        record site { part = none; state = missing; destination = some file },
      )
  unfolding keep_same keep_part open_kept open_aligned align_part
  open_complete file request site saved f held same all =
      let fits : (ltb request.size saved.offset || not (length file == saved.offset)) ≡ false =
        ground (arith, all, f.size) in
      let done : (saved.offset == request.size) ≡ true = ground (arith, all) in
      let good : (w.sha256 file == request.digest) ≡ true = ground (arith, f.digest) in
      (rw (held, same, fits, done, good) refl)

  -- When a copy of a file whose size is no multiple of the chunk size was cut off after its last chunk
  -- was saved, the next copy leaves the file at the destination and is reported to the sender as
  -- failed.
  pub copy_misreported :
      (file : Bytes) (request : TransferV1Request) (stops : List Stop) (site : PartSite)
      (saved : TransferV1State)
      → request.size ≡ length file
      → request.chunk_size ≡ transfer_v1_chunk_size
      → w.sha256 file ≡ request.digest
      → length file < 2 ^ 64
      → site.state ≡ holds saved
      → site.part ≡ some file
      → is_same request saved ≡ true
      → saved.offset ≡ request.size
      → (request.size % transfer_v1_chunk_size == 0) ≡ false
      → ((run_copy_v1 stops request file site).0 ≡ err bad_resume)
        × ((run_copy_v1 stops request file site).1.destination ≡ some file)
  unfolding run_copy_v1 resume_copy check_resume load_transfer_v1_state
  copy_misreported file request stops site saved size chunk digest bound state held same all odd =
      let f : IsFor file request = record {
        size = size;
        chunk = chunk;
        digest = digest;
        bound = bound;
      } in
      let opened =
        open_loaded file request site (some saved) f (ap load_transfer_v1_state state)
        ∙ ap ok (open_complete file request site saved f held same all) in
      let within : (ltb request.size request.size) ≡ false = ground arith in
      (rw (opened, all, within, odd) (refl, refl))
