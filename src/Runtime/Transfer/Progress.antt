-- ===== src/Runtime/Transfer/Progress.antt =====
-- crates/misaka-runtime/src/runtime.rs: the files of a transfer through any steps of its workers.
use misaka.Prelude.{
  ℕ, ◌+◌, ◌/◌, ◌<◌, ◌≡◌, refl, ◌∙◌, inl, inr, Bytes, true, false, ◌||◌, List, [], ◌∷◌, nat_eq,
  bytes_eq, length, any, replicate, Bool-cases, arith,
}
use misaka.Prelude.Result.{ok}
use misaka.Core.Transfer.{TransferV2Request}
use misaka.Runtime.JsonFile.{holds}
use misaka.Runtime.ContentStore.{ContentStore}
use misaka.Runtime.Transfer.{
  TransferV2State, Site, transfer_v2_is_completed, transfer_v2_mark_completed, transfer_v2_complete,
  ensure_transfer_v2_state, is_current, restart, fresh_state,
}
use misaka.Runtime.Transfer.Bitmap.{
  IsValid, mark_completed-IsValid, is_completed-mark_completed, is_completed-fresh, fresh-IsValid,
  fresh-is_current, length-replicate, all_below_intro,
}
use misaka.Runtime.Transfer.Handlers.{mark_chunk}
use misaka.Runtime.Transfer.Part.{same_bytes}
use misaka.Runtime.Transfer.Workers.{
  Event, writes, marks, is_mark, is_in, ensure_current, chunk_request, step, run, IsOrdered,
  InProgress, HasWritten, writes_keeps,
}

mark-is_current :
    (request : TransferV2Request) (state : TransferV2State) (i : ℕ)
    → IsValid state
    → is_current request state ≡ true
    → is_current request (transfer_v2_mark_completed state i) ≡ true
unfolding is_current transfer_v2_mark_completed IsValid
mark-is_current request state i v c =
    let kept = (mark_completed-IsValid state i (unfold IsValid in v)).1 in ground (arith, c, kept)

module _ (file : Bytes) (base : TransferV2Request) where
  module _ (state : TransferV2State) (i : ℕ) (site : Site)
      (there : ensure_transfer_v2_state (chunk_request file base i) site ≡ ok (state, site)) where
    marked_chunk :
        transfer_v2_is_completed state i ≡ true
        → mark_chunk (chunk_request file base i) site ≡ ok site
    unfolding mark_chunk chunk_request
    marked_chunk t = rw (there, t) refl

    unmarked_chunk :
        transfer_v2_is_completed state i ≡ false
        → mark_chunk (chunk_request file base i) site
          ≡ ok (record site { state = holds (transfer_v2_mark_completed state i) })
    unfolding mark_chunk chunk_request
    unmarked_chunk t = rw (there, t) refl

  marks_keeps :
      (objects : ContentStore) (written marked : List ℕ) (site : Site) (i : ℕ)
      → is_in i written ≡ true
      → InProgress file base objects written marked site
      → (next : Site) × (step file base site (marks i) ≡ ok next)
        × InProgress file base objects written (i ∷ marked) next
  unfolding step
  marks_keeps objects written marked site i r v =
      let there : ensure_transfer_v2_state (chunk_request file base i) site ≡ ok (v.current, site) =
        ensure_current (chunk_request file base i) site v.current v.content v.is_saved v.is_part
          (unfold is_current chunk_request in v.is_for_base) in
      let room : i < v.current.chunk_count =
        unfold is_current in ground (arith, v.is_for_base, v.in_range i r) in
      elim (Bool-cases (transfer_v2_is_completed v.current i)) [
        | inl t ↦ (
          site,
          marked_chunk v.current i site there t,
          record {
            current = v.current;
            content = v.content;
            same_objects = v.same_objects;
            is_saved = v.is_saved;
            is_part = v.is_part;
            is_for_base = v.is_for_base;
            is_valid = v.is_valid;
            full_length = v.full_length;
            in_range = v.in_range;
            has_written = v.has_written;
            marked_written = v.marked_written;
            marked_completed = λ j e. ground (arith, e, t, v.marked_completed j);
          },
        )
        | inr t ↦
            let mark = is_completed-mark_completed v.current i in
            (
              record site { state = holds (transfer_v2_mark_completed v.current i) },
              unmarked_chunk v.current i site there t,
              record {
                current = transfer_v2_mark_completed v.current i;
                content = v.content;
                same_objects = v.same_objects;
                is_saved = refl;
                is_part = v.is_part;
                is_for_base = mark-is_current base v.current i v.is_valid v.is_for_base;
                is_valid = mark_completed-IsValid v.current i v.is_valid;
                full_length = v.full_length;
                in_range = v.in_range;
                has_written = v.has_written;
                marked_written =
                    λ j e. ground (arith, mark j v.is_valid room, e, r, v.marked_written j);
                marked_completed =
                    λ j e. ground (arith, mark j v.is_valid room, e, v.marked_completed j);
              },
            )
      ]

  -- The files that `ensure_transfer_v2_state` makes anew.
  pub restart-InProgress :
      (site : Site) → InProgress file base site.objects [] [] (restart base site).1
  unfolding restart HasWritten
  restart-InProgress site = record {
    current = fresh_state base;
    content = replicate base.size 0;
    same_objects = refl;
    is_saved = refl;
    is_part = refl;
    is_for_base = fresh-is_current base;
    is_valid = fresh-IsValid base;
    full_length = length-replicate base.size 0;
    in_range = λ i e. cc;
    has_written = λ p k e. cc;
    marked_written = λ i e. absurd (ground (arith, e, is_completed-fresh base i));
    marked_completed = λ i e. cc;
  }

  module _ (sized : base.size ≡ length file)
      (counted : base.chunk_count ≡ (base.size + 65535) / 65536) where
    pub run_keeps :
        (objects : ContentStore) (written marked : List ℕ) (site : Site) (events : List Event)
        → IsOrdered file base written events
        → InProgress file base objects written marked site
        → (written' marked' : List ℕ) × (last : Site) × (run file base site events ≡ ok last)
          × InProgress file base objects written' marked' last
          × ((i : ℕ) → is_in i marked || any (is_mark i) events ≡ true → is_in i marked' ≡ true)
    unfolding run IsOrdered is_mark
    run_keeps objects written marked site [] o v =
        (written, marked, site, refl, v, λ i e. ground (arith, e))
    run_keeps objects written marked site (writes i ∷ es) o v =
        let (next, s, v') =
          writes_keeps file base sized counted objects written marked site i o.0 v in
        let (written', marked', last, r, v'', all) =
          run_keeps objects (i ∷ written) marked next es o.1 v' in
        (written', marked', last, rw s r, v'', λ j e. all j (ground (arith, e)))
    run_keeps objects written marked site (marks i ∷ es) o v =
        let (next, s, v') = marks_keeps objects written marked site i o.0 v in
        let (written', marked', last, r, v'', all) =
          run_keeps objects written (i ∷ marked) next es o.1 v' in
        (written', marked', last, rw s r, v'', λ j e. all j (ground (arith, e)))

    -- A part file with every chunk marked is the file.
    pub complete_part :
        (objects : ContentStore) (written marked : List ℕ) (site : Site)
        (v : InProgress file base objects written marked site)
        → ((i : ℕ) → i < base.chunk_count → is_in i marked ≡ true)
        → (v.content ≡ file) × (transfer_v2_complete v.current ≡ true)
    unfolding transfer_v2_complete HasWritten
    complete_part objects written marked site v all = (
      same_bytes v.content file (v.full_length ∙ sized) (λ p k.
          let small : p < base.size = omega (arith, k, v.full_length) in
          let index : p / 65536 < base.chunk_count = omega (arith, counted, small) in
          v.has_written p small (
            v.marked_written (p / 65536) (v.marked_completed (p / 65536) (all (p / 65536) index)))),
      all_below_intro v.current.chunk_count _ (λ i k.
          v.marked_completed i (all i (unfold is_current in ground (arith, v.is_for_base, k)))),
    )
