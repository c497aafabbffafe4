-- ===== src/Runtime/TransferV1/Progress.antt =====
-- crates/misaka-runtime/src/runtime.rs: the part file of a resumable copy grows chunk by chunk.
use mathlib.Core.List.{append-nil, append_assoc}
use misaka.Prelude.{
  ◌+◌, ◌-◌, ◌%◌, ◌^◌, ◌≤◌, ◌<◌, min, ◌≡◌, refl, sym, ap, ◌∙◌, ◌⊎◌, inl, inr, Bytes, true, false,
  some, [], ◌++◌, ◌==◌, nat_eq, leb, length, length-append, Bool-cases, arith,
}
use misaka.Prelude.Result.{ok}
use misaka.Core.Transfer.{TransferV1Request}
use misaka.Core.Wire.{Wire}
use misaka.Runtime.JsonFile.{missing, holds}
use misaka.Runtime.Transfer.Part.{slice}
use misaka.Runtime.TransferV1.Slices.{
  slice-append, after, slice-after, length_zero, length-slice-min, slice_clip,
}
use misaka.Runtime.TransferV1.{
  TransferV1State, PartSite, Stop, append_chunk, boundary_is_valid, receive_chunk, commit_chunk,
  save_progress, advance,
}
use misaka.Runtime.TransferV1.Copy.{read_payload_at, chunk_at}

-- What the sender reads where a part of its file ends.
pub read_payload_lem :
    (file part rest : Bytes)
    → part ++ rest ≡ file
    → read_payload_at file (length part) ≡ slice 0 65536 rest
unfolding read_payload_at
read_payload_lem file part rest whole = rw (sym whole) (
    let left : length (part ++ rest) - length part ≡ length rest =
      omega (arith, length-append part rest) in
    rw left (slice-append part rest (min 65536 (length rest)) ∙ slice_clip 65536 rest))

-- A part of the file that ends at a chunk, or at the end of the file.
pub record IsPart (file part rest : Bytes) : Type 0 where
  pub whole : part ++ rest ≡ file
  pub ends : (length part % 65536 ≡ 0) ⊎ (rest ≡ [])

-- What is left between copies: nothing to go on from, or a part of the file.
unfoldable pub IsReady : Bytes → PartSite → Type 0
IsReady file site =
    (site.state ≡ missing)
    ⊎ ((s : TransferV1State) × (part : Bytes) × (rest : Bytes) × (site.state ≡ holds s)
        × (site.part ≡ some part)
        × IsPart file part rest)

-- One chunk of the sender, on a part of the file that ends at a chunk.
append_next :
    (file part rest : Bytes) (request : TransferV1Request) (state : TransferV1State)
    → request.size ≡ length file
    → request.chunk_size ≡ 65536
    → request.size < 2 ^ 64
    → part ++ rest ≡ file
    → state.offset ≡ length part
    → 1 ≤ length rest
    → append_chunk request state
        (chunk_at file state.offset)
        (read_payload_at file state.offset)
        (some part)
      ≡ ok (part ++ slice 0 65536 rest)
unfolding append_chunk boundary_is_valid chunk_at
append_next file part rest request state size chunk bound whole offset more =
    let payload = read_payload_lem file part rest whole in
    let total : length part + length rest ≡ length file =
      sym (length-append part rest) ∙ ap length whole in
    let read = length-slice-min 65536 rest in
    (rw (offset, payload) ground (arith, size, chunk, bound, total, read, more))

-- The next part of the file.
pub next-IsPart :
    (file part rest : Bytes)
    → part ++ rest ≡ file
    → length part % 65536 ≡ 0
    → IsPart file (part ++ slice 0 65536 rest) (after 65536 rest)
next-IsPart file part rest whole ends =
    let read = length-slice-min 65536 rest in
    let parts : length (slice 0 65536 rest) + length (after 65536 rest) ≡ length rest =
      sym (length-append (slice 0 65536 rest) (after 65536 rest))
      ∙ ap length (slice-after 65536 rest) in
    let grown = length-append part (slice 0 65536 rest) in
    record {
      whole =
          append_assoc part (slice 0 65536 rest) (after 65536 rest)
          ∙ (ap (λ l. part ++ l) (slice-after 65536 rest) ∙ whole);
      ends = elim (Bool-cases (leb 65536 (length rest))) [
        | inl long ↦ inl (ground (arith, read, grown, ends, long))
        | inr short ↦ inr (length_zero (after 65536 rest) (ground (arith, read, parts, short)))
      ];
    }

pub advance_next :
    (file part rest : Bytes) (state : TransferV1State)
    → length file < 2 ^ 64
    → part ++ rest ≡ file
    → state.offset ≡ length part
    → (advance state (chunk_at file state.offset)).offset ≡ length (part ++ slice 0 65536 rest)
unfolding advance chunk_at
advance_next file part rest state bound whole offset =
    let payload = read_payload_lem file part rest whole in
    let total : length part + length rest ≡ length file =
      sym (length-append part rest) ∙ ap length whole in
    let read = length-slice-min 65536 rest in
    let grown = length-append part (slice 0 65536 rest) in
    (rw (offset, payload) omega (arith, bound, total, read, grown))

-- The request is for the sender's file.
pub record IsFor ⦃w : Wire⦄ (file : Bytes) (request : TransferV1Request) : Type 0 where
  pub size : request.size ≡ length file
  pub chunk : request.chunk_size ≡ 65536
  pub digest : w.sha256 file ≡ request.digest
  pub bound : length file < 2 ^ 64

-- A session that is under way, which has bytes left to send.
pub record InSession (file : Bytes) (state : TransferV1State) (site : PartSite) : Type 0 where
  pub part : Bytes
  pub rest : Bytes
  pub held : site.part ≡ some part
  pub whole : part ++ rest ≡ file
  pub offset : state.offset ≡ length part
  pub ends : length part % 65536 ≡ 0
  pub more : 1 ≤ length rest
  pub readable : (site.state ≡ missing) ⊎ ((s : TransferV1State) × (site.state ≡ holds s))

module _ ⦃w : Wire⦄ where
  pub receive_next :
      (file : Bytes) (request : TransferV1Request) (state : TransferV1State) (site : PartSite)
      (stop : Stop)
      → IsFor file request
      → (s : InSession file state site)
      → receive_chunk stop request state
          (chunk_at file state.offset)
          (read_payload_at file state.offset)
          site
        ≡ save_progress stop request
            (advance state (chunk_at file state.offset))
            (s.part ++ slice 0 65536 s.rest)
            site
  unfolding receive_chunk commit_chunk
  receive_next file request state site stop f s =
      let appended =
        append_next file s.part s.rest request state f.size f.chunk (omega (arith, f.size, f.bound))
          s.whole s.offset s.more in
      rw (s.held, appended) refl

  pub before_save-IsReady :
      (file : Bytes) (state : TransferV1State) (site : PartSite) (s : InSession file state site)
      → IsReady file (record site { part = some (s.part ++ slice 0 65536 s.rest) })
  unfolding IsReady
  before_save-IsReady file state site s = elim s.readable [
    | inl none_saved ↦ inl none_saved
    | inr (saved, e) ↦ inr (
      saved,
      s.part ++ slice 0 65536 s.rest,
      after 65536 s.rest,
      e,
      refl,
      next-IsPart file s.part s.rest s.whole s.ends,
    )
  ]

  pub saved-IsReady :
      (file : Bytes) (state next : TransferV1State) (site : PartSite)
      (s : InSession file state site)
      → IsReady file
          (record site { part = some (s.part ++ slice 0 65536 s.rest); state = holds next })
  unfolding IsReady
  saved-IsReady file state next site s = inr (
    next,
    s.part ++ slice 0 65536 s.rest,
    after 65536 s.rest,
    refl,
    refl,
    next-IsPart file s.part s.rest s.whole s.ends,
  )

  -- The session after a chunk that was not the last.
  pub next_session :
      (file : Bytes) (request : TransferV1Request) (state : TransferV1State) (site : PartSite)
      (s : InSession file state site)
      → IsFor file request
      → (length (s.part ++ slice 0 65536 s.rest) == length file) ≡ false
      → InSession file (advance state (chunk_at file state.offset)) (record site {
        part = some (s.part ++ slice 0 65536 s.rest);
        state = holds (advance state (chunk_at file state.offset));
      })
  next_session file request state site s f open_end =
      let next = next-IsPart file s.part s.rest s.whole s.ends in
      let total : length (s.part ++ slice 0 65536 s.rest) + length (after 65536 s.rest)
          ≡ length file =
        sym (length-append (s.part ++ slice 0 65536 s.rest) (after 65536 s.rest))
        ∙ ap length next.whole in
      let left : 1 ≤ length (after 65536 s.rest) = ground (arith, total, open_end) in
      record {
        part = s.part ++ slice 0 65536 s.rest;
        rest = after 65536 s.rest;
        held = refl;
        whole = next.whole;
        offset = advance_next file s.part s.rest state f.bound s.whole s.offset;
        ends = elim next.ends [
          | inl e ↦ e
          | inr none_left ↦ absurd (omega (arith, left, ap length none_left))
        ];
        more = left;
        readable = inr (advance state (chunk_at file state.offset), refl);
      }

  -- The whole file is there after the last chunk.
  pub last_part :
      (file : Bytes) (state : TransferV1State) (site : PartSite) (s : InSession file state site)
      → (length (s.part ++ slice 0 65536 s.rest) == length file) ≡ true
      → s.part ++ slice 0 65536 s.rest ≡ file
  last_part file state site s last =
      let next = next-IsPart file s.part s.rest s.whole s.ends in
      let total : length (s.part ++ slice 0 65536 s.rest) + length (after 65536 s.rest)
          ≡ length file =
        sym (length-append (s.part ++ slice 0 65536 s.rest) (after 65536 s.rest))
        ∙ ap length next.whole in
      let gone : after 65536 s.rest ≡ [] =
        length_zero (after 65536 s.rest) (ground (arith, total, last)) in
      sym (append-nil (s.part ++ slice 0 65536 s.rest))
      ∙ (ap (λ l. (s.part ++ slice 0 65536 s.rest) ++ l) (sym gone) ∙ next.whole)
