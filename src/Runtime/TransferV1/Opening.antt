-- ===== src/Runtime/TransferV1/Opening.antt =====
-- crates/misaka-runtime/src/runtime.rs: what a resumable copy finds when it is opened.
use mathlib.Core.List.{append-nil}
use misaka.Prelude.{
  ◌+◌, ◌≤◌, ◌≡◌, refl, sym, ap, ◌∙◌, ◌⊎◌, inl, inr, Bytes, true, false, Option, none, some, [],
  ◌++◌, not, ◌||◌, ltb, ◌==◌, nat_eq, bytes_eq, length, length-append, Bool-cases, arith,
}
use misaka.Prelude.Result.{ok}
use misaka.Core.Transfer.{TransferV1Request, TransferV1Resume, transfer_v1_chunk_size}
use misaka.Core.Wire.{Wire}
use misaka.Runtime.JsonFile.{missing, holds}
use misaka.Runtime.TransferV1.{
  TransferV1State, PartSite, open_transfer_v1, open_kept, open_aligned, align_part, keep_same,
  keep_part, start_over, is_same, load_transfer_v1_state,
}
use misaka.Runtime.TransferV1.Progress.{IsPart, IsReady, IsFor, InSession}
use misaka.Runtime.TransferV1.Slices.{length_zero}

module _ ⦃w : Wire⦄ where
  unfoldable pub Opened :
      Bytes → TransferV1Request → TransferV1Resume × TransferV1State × PartSite → Type 0
  Opened file request (resume, state, site) =
      ((resume.complete ≡ true) × (site.state ≡ missing) × (site.destination ≡ some file))
      ⊎ ((resume.complete ≡ false) × (resume.offset ≡ state.offset) × InSession file state site)

  -- On a part of the file that is as long as the state says, and a site whose state file reads.
  open_aligned-Opened :
      (file : Bytes) (request : TransferV1Request) (state : TransferV1State) (part rest : Bytes)
      (site : PartSite)
      → IsFor file request
      → IsPart file part rest
      → state.offset ≡ length part
      → ((site.state ≡ missing) ⊎ ((s : TransferV1State) × (site.state ≡ holds s)))
      → Opened file request (open_aligned request site (state, part))
  unfolding Opened open_aligned
  open_aligned-Opened file request state part rest site f p offset readable =
      let total : length part + length rest ≡ length file =
        sym (length-append part rest) ∙ ap length p.whole in
      elim (Bool-cases (state.offset == request.size)) [
        | inl all ↦
            let gone : rest ≡ [] = length_zero rest (ground (arith, total, offset, f.size, all)) in
            let same : part ≡ file =
              sym (append-nil part) ∙ (ap (λ l. part ++ l) (sym gone) ∙ p.whole) in
            let good : (w.sha256 part == request.digest) ≡ true =
              (rw same ground (arith, f.digest)) in
            (rw (all, good) (inl (refl, refl, ap some same)))
        | inr short ↦
            let more : 1 ≤ length rest = ground (arith, total, offset, f.size, short) in
            (rw short (
              inr (
                refl,
                refl,
                record {
                  part = part;
                  rest = rest;
                  held = refl;
                  whole = p.whole;
                  offset = offset;
                  ends = elim p.ends [
                    | inl e ↦ e
                    | inr none_left ↦ absurd (omega (arith, more, ap length none_left))
                  ];
                  more = more;
                  readable = readable;
                },
              )))
      ]

  start_site :
      (file : Bytes) (request : TransferV1Request) (state : TransferV1State) (site : PartSite)
      → IsFor file request
      → state.offset ≡ 0
      → ((site.state ≡ missing) ⊎ ((s : TransferV1State) × (site.state ≡ holds s)))
      → Opened file request (open_aligned request site (state, []))
  start_site file request state site f offset readable =
      open_aligned-Opened file request state [] file site f
        (record { whole = refl; ends = inl refl }) offset readable

  pub open_loaded :
      (file : Bytes) (request : TransferV1Request) (site : PartSite)
      (loaded : Option TransferV1State)
      → IsFor file request
      → load_transfer_v1_state site.state ≡ ok loaded
      → open_transfer_v1 request site ≡ ok (open_kept request (keep_same request site loaded))
  unfolding open_transfer_v1
  open_loaded file request site loaded f l =
      let chunk : (request.chunk_size == transfer_v1_chunk_size) ≡ true = ground (arith, f.chunk) in
      rw (chunk, l) refl

  aligned-Opened :
      (file : Bytes) (request : TransferV1Request) (state saved : TransferV1State)
      (part rest : Bytes) (site : PartSite)
      → IsFor file request
      → IsPart file part rest
      → site.state ≡ holds saved
      → Opened file request (open_aligned request site (align_part request state (some part)))
  unfolding align_part
  aligned-Opened file request state saved part rest site f p e =
      elim (Bool-cases (ltb request.size state.offset || not (length part == state.offset))) [
        | inl misfit ↦ rw misfit (start_site file request _ site f refl (inr (saved, e)))
        | inr fits ↦ rw fits (
            open_aligned-Opened file request state part rest site f p (ground (arith, fits))
              (inr (saved, e)))
      ]

  start_over-Opened :
      (file : Bytes) (request : TransferV1Request) (site : PartSite)
      → IsFor file request
      → Opened file request (open_kept request (start_over request site))
  unfolding open_kept start_over align_part
  start_over-Opened file request site f =
      start_site file request (start_over request site).0
        (record site { part = none; state = missing }) f refl (inl refl)

  kept-Opened :
      (file : Bytes) (request : TransferV1Request) (saved : TransferV1State) (part rest : Bytes)
      (site : PartSite)
      → IsFor file request
      → IsPart file part rest
      → site.state ≡ holds saved
      → site.part ≡ some part
      → Opened file request (open_kept request (keep_same request site (some saved)))
  unfolding keep_same keep_part open_kept
  kept-Opened file request saved part rest site f p e held =
      elim (Bool-cases (is_same request saved)) [
        | inl same ↦
            rw (held, same)
              (aligned-Opened file request saved saved part rest (record site { part = some part })
                f p e)
        | inr other ↦
            rw (held, other) (start_over-Opened file request (record site { part = some part }) f)
      ]

  -- Whatever a copy that was cut off has left, the next one opens.
  pub open_transfer_v1-Opened :
      (file : Bytes) (request : TransferV1Request) (site : PartSite)
      → IsFor file request
      → IsReady file site
      → (found : TransferV1Resume × TransferV1State × PartSite) × (open_transfer_v1 request site
          ≡ ok found)
        × Opened file request found
  unfolding IsReady load_transfer_v1_state keep_same
  open_transfer_v1-Opened file request site f (inl nothing_saved) = (
    open_kept request (start_over request site),
    open_loaded file request site none f (ap load_transfer_v1_state nothing_saved),
    start_over-Opened file request site f,
  )
  open_transfer_v1-Opened file request site f (inr (saved, part, rest, e, held, p)) = (
    open_kept request (keep_same request site (some saved)),
    open_loaded file request site (some saved) f (ap load_transfer_v1_state e),
    kept-Opened file request saved part rest site f p e held,
  )
