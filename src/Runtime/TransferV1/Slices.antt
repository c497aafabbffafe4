-- ===== src/Runtime/TransferV1/Slices.antt =====
-- crates/misaka-cli/src/main.rs: the pieces of a file that is read in turns.
use misaka.Prelude.{ℕ, zero, suc, min, ◌≡◌, refl, ap, Bytes, [], ◌∷◌, ◌++◌, length, arith}
use misaka.Runtime.Transfer.Part.{slice}

-- The bytes from the end of a prefix on.
pub slice-append :
    (part rest : Bytes) (n : ℕ) → slice (length part) n (part ++ rest) ≡ slice 0 n rest
unfolding slice
slice-append [] rest n = refl
slice-append (b ∷ part) rest n = slice-append part rest n

unfoldable pub after : ℕ → Bytes → Bytes
after zero bytes = bytes
after (suc n) [] = []
after (suc n) (b ∷ bytes) = after n bytes

pub slice-after : (n : ℕ) (bytes : Bytes) → slice 0 n bytes ++ after n bytes ≡ bytes
unfolding slice after
slice-after zero [] = refl
slice-after zero (b ∷ bytes) = refl
slice-after (suc n) [] = refl
slice-after (suc n) (b ∷ bytes) = ap (λ l. b ∷ l) (slice-after n bytes)

pub length_zero : (xs : Bytes) → length xs ≡ 0 → xs ≡ []
length_zero [] h = refl
length_zero (x ∷ xs) h = absurd (omega (arith, h))

pub length-slice-min : (n : ℕ) (bytes : Bytes) → length (slice 0 n bytes) ≡ min n (length bytes)
unfolding slice
length-slice-min n [] = omega arith
length-slice-min zero (b ∷ bytes) = omega arith
length-slice-min (suc n) (b ∷ bytes) = omega (arith, length-slice-min n bytes)

pub slice_clip : (n : ℕ) (bytes : Bytes) → slice 0 (min n (length bytes)) bytes ≡ slice 0 n bytes
unfolding slice
slice_clip n [] = refl
slice_clip zero (b ∷ bytes) = rw (let e : min 0 (suc (length bytes)) ≡ 0 = omega arith in e) refl
slice_clip (suc n) (b ∷ bytes) =
    rw (let e : min (suc n) (suc (length bytes)) ≡ suc (min n (length bytes)) = omega arith in e)
      (ap (λ l. b ∷ l) (slice_clip n bytes))
