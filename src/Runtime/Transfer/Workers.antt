-- ===== src/Runtime/Transfer/Workers.antt =====
-- crates/misaka-runtime/src/runtime.rs: the workers of one transfer, in any interleaving. Each worker
-- writes its chunk outside the lock and marks it under the lock.
use misaka.Prelude.{
  ℕ, ◌+◌, ◌-◌, ◌*◌, ◌/◌, ◌<◌, min, ◌≡◌, refl, ◌∙◌, inl, inr, Bytes, Bool, true, false, some, List,
  [], ◌∷◌, ◌==◌, nat_eq, length, any, Bool-cases, arith,
}
use misaka.Prelude.Result.{Result, ok, ◌>>=◌}
use misaka.Core.Transfer.{TransferV2Request, chunk}
use misaka.Runtime.JsonFile.{holds}
use misaka.Runtime.ContentStore.{ContentStore}
use misaka.Runtime.Transfer.{
  TransferV2State, Site, TransferError, transfer_v2_is_completed, ensure_transfer_v2_state,
  is_current, load_transfer_v2_state, keep_loaded, keep_state,
}
use misaka.Runtime.Transfer.Bitmap.{IsValid}
use misaka.Runtime.Transfer.Handlers.{write_at, write_chunk, mark_chunk, write_part}
use misaka.Runtime.Transfer.Part.{at, slice, at-write_at, length-write_at, length-slice, at-slice}

pub ensure_current :
    (request : TransferV2Request) (site : Site) (state : TransferV2State) (part : Bytes)
    → site.state ≡ holds state
    → site.part ≡ some part
    → is_current request state ≡ true
    → ensure_transfer_v2_state request site ≡ ok (state, site)
unfolding ensure_transfer_v2_state load_transfer_v2_state keep_loaded keep_state
ensure_current request site state part s p c = rw (s, p, c) refl

-- What a worker does to the shared files: its write, and its mark.
pub data Event : Type 0 where
  writes marks : ℕ → Event

unfoldable pub is_mark : ℕ → Event → Bool
is_mark i (writes j) = false
is_mark i (marks j) = i == j

abbrev pub is_in : ℕ → List ℕ → Bool
is_in i written = any (λ j. j == i) written

-- The sender's file, and the request that its chunk requests are made from.
module _ (file : Bytes) (base : TransferV2Request) where
  unfoldable pub chunk_request : ℕ → TransferV2Request
  chunk_request i = record base {
    operation = chunk;
    index = i;
    offset = 65536 * i;
    len = min (base.size - 65536 * i) 65536;
  }

  unfoldable pub payload : ℕ → Bytes
  payload i = slice (65536 * i) (min (base.size - 65536 * i) 65536) file

  unfoldable pub step : Site → Event → Result TransferError Site
  unfolding chunk_request payload
  step site (writes i) = write_chunk (chunk_request i) (payload i) site
  step site (marks i) = mark_chunk (chunk_request i) site

  unfoldable pub run : Site → List Event → Result TransferError Site
  unfolding step
  run site [] = ok site
  run site (e ∷ es) = step site e >>= λ site'. run site' es

  -- Each chunk is in range and is marked only after it is written.
  unfoldable pub IsOrdered : List ℕ → List Event → Type 0
  IsOrdered written [] = Unit
  IsOrdered written (writes i ∷ es) = (i < base.chunk_count) × IsOrdered (i ∷ written) es
  IsOrdered written (marks i ∷ es) = (is_in i written ≡ true) × IsOrdered written es

  -- Every written chunk has the file's bytes in the part file, and is in range.
  unfoldable pub HasWritten : List ℕ → Bytes → Type 0
  HasWritten written part =
      (p : ℕ) → p < base.size → is_in (p / 65536) written ≡ true → at part p ≡ at file p

  -- The files of a transfer in progress, between the steps of its workers.
  pub record InProgress (objects : ContentStore) (written marked : List ℕ) (site : Site)
      : Type 0 where
    pub current : TransferV2State
    pub content : Bytes
    pub same_objects : site.objects ≡ objects
    pub is_saved : site.state ≡ holds current
    pub is_part : site.part ≡ some content
    pub is_for_base : is_current base current ≡ true
    pub is_valid : IsValid current
    pub full_length : length content ≡ base.size
    pub in_range : (i : ℕ) → is_in i written ≡ true → i < base.chunk_count
    pub has_written : HasWritten written content
    pub marked_written :
        (i : ℕ) → transfer_v2_is_completed current i ≡ true → is_in i written ≡ true
    pub marked_completed :
        (i : ℕ) → is_in i marked ≡ true → transfer_v2_is_completed current i ≡ true

  module _ (sized : base.size ≡ length file)
      (counted : base.chunk_count ≡ (base.size + 65535) / 65536) where
    write-HasWritten :
        (written : List ℕ) (part : Bytes) (i : ℕ)
        → i < base.chunk_count
        → HasWritten written part
        → HasWritten (i ∷ written) (write_at part (65536 * i) (payload i))
    unfolding HasWritten payload
    write-HasWritten written part i r h p k e =
        let n = min (base.size - 65536 * i) 65536 in
        let l = length-slice (65536 * i) n file (omega (arith, sized, counted, r)) in
        let wrote = at-write_at part (65536 * i) (payload i) p in
        elim (Bool-cases (i == p / 65536)) [
          | inl t ↦
              let there = at-slice (65536 * i) n file (p - 65536 * i) in
              ground (arith, wrote, l, there, t)
          | inr t ↦ ground (arith, wrote, l, t, h p k)
        ]

    pub writes_keeps :
        (objects : ContentStore) (written marked : List ℕ) (site : Site) (i : ℕ)
        → i < base.chunk_count
        → InProgress objects written marked site
        → (next : Site) × (step site (writes i) ≡ ok next)
          × InProgress objects (i ∷ written) marked next
    unfolding step write_chunk write_part
    writes_keeps objects written marked site i r v =
        let part' = write_at v.content (65536 * i) (payload i) in
        let l =
          length-slice (65536 * i) (min (base.size - 65536 * i) 65536) file
            (omega (arith, sized, counted, r)) in
        (
          record site { part = some part' },
          (rw v.is_part refl),
          record {
            current = v.current;
            content = part';
            same_objects = v.same_objects;
            is_saved = v.is_saved;
            is_part = refl;
            is_for_base = v.is_for_base;
            is_valid = v.is_valid;
            full_length =
                length-write_at v.content (65536 * i) (payload i)
                  (omega (arith, l, v.full_length, counted, r))
                ∙ v.full_length;
            in_range = λ j e. ground (arith, v.in_range j, e, r);
            has_written = write-HasWritten written v.content i r v.has_written;
            marked_written = λ j e. ground (arith, v.marked_written j e);
            marked_completed = v.marked_completed;
          },
        )
