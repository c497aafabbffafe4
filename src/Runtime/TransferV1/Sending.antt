-- ===== src/Runtime/TransferV1/Sending.antt =====
-- crates/misaka-cli/src/main.rs, crates/misaka-runtime/src/runtime.rs: the chunks of a resumable copy,
-- sent until it is cut off or done.
use misaka.Prelude.{
  ℕ, zero, suc, ◌+◌, ◌≤◌, ◌≡◌, refl, sym, ap, subst, inl, inr, Bytes, true, none, some, List, [],
  ◌∷◌, ◌++◌, ◌==◌, nat_eq, bytes_eq, length, length-append, replicate, if◌then◌else◌, Bool-cases,
  arith,
}
use misaka.Prelude.Result.{Result}
use misaka.Core.Transfer.{TransferV1Request, TransferResult}
use misaka.Core.Wire.{Wire}
use misaka.Runtime.JsonFile.{missing, holds}
use misaka.Runtime.Transfer.Part.{slice}
use misaka.Runtime.TransferV1.{
  TransferV1State, PartSite, ReceiveError, Stop, runs, before_save, after_save, save_progress,
  advance, finish_transfer_v1,
}
use misaka.Runtime.TransferV1.Copy.{read_payload_at, chunk_at, continue_copy, send_chunks}
use misaka.Runtime.TransferV1.Progress.{
  IsReady, IsFor, InSession, read_payload_lem, advance_next, receive_next, before_save-IsReady,
  saved-IsReady, next_session, last_part,
}
use misaka.Runtime.TransferV1.Slices.{length-slice-min}

module _ ⦃w : Wire⦄ where
  -- Where a chunk leaves the files, and what follows it when nothing stops.
  abbrev grown :
      {file : Bytes} {state : TransferV1State} {site : PartSite} → InSession file state site → Bytes
  grown s = s.part ++ slice 0 65536 s.rest

  abbrev saved_site :
      {file : Bytes} {state : TransferV1State} {site : PartSite}
      → InSession file state site
      → PartSite
  saved_site {file = file} {state = state} {site = site} s = record site {
    part = some (grown s);
    state = holds (advance state (chunk_at file state.offset));
  }

  continue_runs :
      (file : Bytes) (request : TransferV1Request) (state : TransferV1State) (site : PartSite)
      (s : InSession file state site)
      (more : ℕ → TransferV1State → PartSite → Result ReceiveError TransferResult × PartSite)
      → IsFor file request
      → continue_copy more request
          (state.offset + length (read_payload_at file state.offset))
          (save_progress runs request (advance state (chunk_at file state.offset)) (grown s) site)
        ≡ (if length (grown s) == length file
            then finish_transfer_v1 request
                (advance state (chunk_at file state.offset)).offset
                (some (grown s))
                (saved_site s)
            else more
                (advance state (chunk_at file state.offset)).offset
                (advance state (chunk_at file state.offset))
                (saved_site s))
  unfolding continue_copy save_progress
  continue_runs file request state site s more f =
      let moved = advance_next file s.part s.rest state f.bound s.whole s.offset in
      let payload = read_payload_lem file s.part s.rest s.whole in
      let expected : (length (grown s) == state.offset + length (read_payload_at file state.offset))
          ≡ true =
        (rw (s.offset, payload) ground (arith, length-append s.part (slice 0 65536 s.rest))) in
      (rw (moved, expected, f.size) refl)

  finish_last :
      (file : Bytes) (request : TransferV1Request) (state : TransferV1State) (site : PartSite)
      (s : InSession file state site) (offset : ℕ) (left : PartSite)
      → IsFor file request
      → (length (grown s) == length file) ≡ true
      → (finish_transfer_v1 request offset (some (grown s)) left).1
        ≡ record left { part = none; state = missing; destination = some file }
  unfolding finish_transfer_v1
  finish_last file request state site s offset left f last =
      let same = last_part file state site s last in rw same (ground (arith, f.digest))

  session-IsReady :
      (file : Bytes) (state : TransferV1State) (site : PartSite)
      → InSession file state site
      → IsReady file site
  unfolding IsReady
  session-IsReady file state site s = elim s.readable [
    | inl none_saved ↦ inl none_saved
    | inr (saved, e) ↦
        inr (saved, s.part, s.rest, e, s.held, record { whole = s.whole; ends = inl s.ends })
  ]

  -- Wherever the sending is cut off, the files can be gone on from.
  pub send_chunks-IsReady :
      (file : Bytes) (request : TransferV1Request) (stops : List Stop) (state : TransferV1State)
      (site : PartSite)
      → IsFor file request
      → InSession file state site
      → IsReady file (send_chunks stops request file state.offset state site).1
  unfolding send_chunks save_progress IsReady
  send_chunks-IsReady file request [] state site f s = session-IsReady file state site s
  send_chunks-IsReady file request (before_save ∷ stops) state site f s =
      rw (receive_next file request state site before_save f s)
        (before_save-IsReady file state site s)
  send_chunks-IsReady file request (after_save ∷ stops) state site f s =
      rw (receive_next file request state site after_save f s)
        (saved-IsReady file state (advance state (chunk_at file state.offset)) site s)
  send_chunks-IsReady file request (runs ∷ stops) state site f s =
      rw
        (
          receive_next file request state site runs f s,
          continue_runs file request state site s (send_chunks stops request file) f,
        )
        elim (Bool-cases (length (grown s) == length file)) [
          | inl last ↦ rw last (
              subst (IsReady file)
                (sym (
                  finish_last file request state site s
                    (advance state (chunk_at file state.offset)).offset (saved_site s) f last))
                (inl refl))
          | inr open_end ↦ rw open_end (
              send_chunks-IsReady file request stops (advance state (chunk_at file state.offset))
                (saved_site s) f (next_session file request state site s f open_end))
        ]

  -- When nothing stops, the file is delivered.
  pub send_chunks-delivers :
      (file : Bytes) (request : TransferV1Request) (n : ℕ) (state : TransferV1State)
      (site : PartSite)
      → IsFor file request
      → InSession file state site
      → length file ≤ state.offset + n
      → (send_chunks (replicate n runs) request file state.offset state site).1.destination
        ≡ some file
  unfolding send_chunks
  send_chunks-delivers file request zero state site f s enough =
      absurd
        (omega (arith, s.more, enough, s.offset, length-append s.part s.rest, ap length s.whole))
  send_chunks-delivers file request (suc n) state site f s enough =
      let shorter : length file ≤ (advance state (chunk_at file state.offset)).offset + n = omega (
        arith,
        enough,
        s.more,
        s.offset,
        advance_next file s.part s.rest state f.bound s.whole s.offset,
        length-slice-min 65536 s.rest,
        length-append s.part (slice 0 65536 s.rest),
      ) in
      (rw
        (
          receive_next file request state site runs f s,
          continue_runs file request state site s (send_chunks (replicate n runs) request file) f,
        )
        elim (Bool-cases (length (grown s) == length file)) [
          | inl last ↦ rw last (
              ap (λ left. left.destination)
                (finish_last file request state site s
                  (advance state (chunk_at file state.offset)).offset (saved_site s) f last))
          | inr open_end ↦ rw open_end (
              send_chunks-delivers file request n (advance state (chunk_at file state.offset))
                (saved_site s) f (next_session file request state site s f open_end) shorter)
        ])
