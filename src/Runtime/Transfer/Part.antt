-- ===== src/Runtime/Transfer/Part.antt =====
-- crates/misaka-runtime/src/runtime.rs: the bytes of the part file.
use misaka.Prelude.{
  ℕ, zero, suc, ◌+◌, ◌-◌, ◌≤◌, ◌<◌, ◌≡◌, refl, ap, Bytes, ◌&&◌, [], ◌∷◌, leb, ltb, length, get_or,
  if◌then◌else◌, arith,
}
use misaka.Runtime.Transfer.Handlers.{overlay, write_at}

abbrev pub at : Bytes → ℕ → ℕ
at bytes i = get_or bytes i 0

at-overlay :
    (payload content : Bytes) (i : ℕ)
    → at (overlay payload content) i
      ≡ (if ltb i (length payload) then at payload i else at content i)
unfolding overlay
at-overlay [] content i = ground arith
at-overlay (p ∷ payload) [] zero = ground arith
at-overlay (p ∷ payload) (c ∷ content) zero = ground arith
at-overlay (p ∷ payload) [] (suc i) = ground (arith, at-overlay payload [] i)
at-overlay (p ∷ payload) (c ∷ content) (suc i) = ground (arith, at-overlay payload content i)

-- What a write at an offset leaves at each position.
pub at-write_at :
    (content : Bytes) (offset : ℕ) (payload : Bytes) (i : ℕ)
    → at (write_at content offset payload) i ≡ (
        if leb offset i && ltb i (offset + length payload)
        then at payload (i - offset)
        else at content i)
unfolding write_at
at-write_at content zero payload i = ground (arith, at-overlay payload content i)
at-write_at [] (suc offset) payload zero = ground arith
at-write_at [] (suc offset) payload (suc i) = ground (arith, at-write_at [] offset payload i)
at-write_at (c ∷ content) (suc offset) payload zero = ground arith
at-write_at (c ∷ content) (suc offset) payload (suc i) =
    ground (arith, at-write_at content offset payload i)

length-overlay :
    (payload content : Bytes)
    → length payload ≤ length content
    → length (overlay payload content) ≡ length content
unfolding overlay
length-overlay [] content h = refl
length-overlay (p ∷ payload) [] h = absurd (omega (arith, h))
length-overlay (p ∷ payload) (c ∷ content) h =
    ap suc (length-overlay payload content (omega (arith, h)))

pub length-write_at :
    (content : Bytes) (offset : ℕ) (payload : Bytes)
    → offset + length payload ≤ length content
    → length (write_at content offset payload) ≡ length content
unfolding write_at
length-write_at content zero payload h = length-overlay payload content (omega (arith, h))
length-write_at [] (suc offset) payload h = absurd (omega (arith, h))
length-write_at (c ∷ content) (suc offset) payload h =
    ap suc (length-write_at content offset payload (omega (arith, h)))

-- Two byte strings of one length that agree at each position are the same.
pub same_bytes :
    (xs ys : Bytes)
    → length xs ≡ length ys
    → ((i : ℕ) → i < length xs → at xs i ≡ at ys i)
    → xs ≡ ys
same_bytes [] [] l h = refl
same_bytes [] (y ∷ ys) l h = absurd (omega (arith, l))
same_bytes (x ∷ xs) [] l h = absurd (omega (arith, l))
same_bytes (x ∷ xs) (y ∷ ys) l h =
    rw
      (h 0 (omega arith), same_bytes xs ys (omega (arith, l)) (λ i k. h (suc i) (omega (arith, k))))
      refl

-- The `n` bytes of a file from an offset on, as the sender reads them.
unfoldable pub slice : ℕ → ℕ → Bytes → Bytes
slice offset n [] = []
slice zero zero (b ∷ bytes) = []
slice zero (suc n) (b ∷ bytes) = b ∷ slice zero n bytes
slice (suc offset) n (b ∷ bytes) = slice offset n bytes

pub length-slice :
    (offset n : ℕ) (bytes : Bytes) → offset + n ≤ length bytes → length (slice offset n bytes) ≡ n
unfolding slice
length-slice offset n [] h = omega (arith, h)
length-slice zero zero (b ∷ bytes) h = refl
length-slice zero (suc n) (b ∷ bytes) h = ap suc (length-slice zero n bytes (omega (arith, h)))
length-slice (suc offset) n (b ∷ bytes) h = length-slice offset n bytes (omega (arith, h))

pub at-slice :
    (offset n : ℕ) (bytes : Bytes) (i : ℕ)
    → i < n
    → at (slice offset n bytes) i ≡ at bytes (offset + i)
unfolding slice
at-slice offset n [] i h = refl
at-slice zero zero (b ∷ bytes) i h = absurd (omega (arith, h))
at-slice zero (suc n) (b ∷ bytes) zero h = ground arith
at-slice zero (suc n) (b ∷ bytes) (suc i) h =
    ground (arith, at-slice zero n bytes i (omega (arith, h)))
at-slice (suc offset) n (b ∷ bytes) i h = ground (arith, at-slice offset n bytes i h)
