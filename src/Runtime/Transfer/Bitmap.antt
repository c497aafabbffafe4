-- ===== src/Runtime/Transfer/Bitmap.antt =====
-- crates/misaka-runtime/src/runtime.rs: the bitmap of completed chunks.
use Prim.Native.Nat.{bit_and, bit_or}
use misaka.Prelude.{
  ℕ, zero, suc, ◌/◌, ◌%◌, ◌^◌, ◌<◌, ◌≡◌, refl, sym, ap, ◌∙◌, inl, inr, Bytes, Bool, true, false,
  not, ◌&&◌, ◌||◌, [], ◌∷◌, ◌==◌, nat_eq, ltb, length, get_or, replicate, All, if◌then◌else◌,
  ℕ_discrete, Bool-cases, arith,
}
use misaka.Core.Transfer.{TransferV2Request}
use misaka.Runtime.Transfer.{
  TransferV2State, all_below, or_at, transfer_v2_is_completed, transfer_v2_mark_completed,
  transfer_v2_bitmap_len, div_ceil, fresh_state, is_current,
}

pub all_below_at : (n : ℕ) (p : ℕ → Bool) → all_below n p ≡ true → (i : ℕ) → i < n → p i ≡ true
unfolding all_below
all_below_at zero p h i k = absurd (omega (arith, k))
all_below_at (suc n) p h i k = elim (Bool-cases (i == n)) [
  | inl t ↦ let last : i ≡ n = ground (arith, t) in rw last (ground (arith, h))
  | inr t ↦ all_below_at n p (ground (arith, h)) i (ground (arith, t, k))
]

pub all_below_intro : (n : ℕ) (p : ℕ → Bool) → ((i : ℕ) → i < n → p i ≡ true) → all_below n p ≡ true
unfolding all_below
all_below_intro zero p h = refl
all_below_intro (suc n) p h =
    ground (arith, h n (omega arith), all_below_intro n p (λ i k. h i (omega (arith, k))))

is_set : ℕ → ℕ → Bool
is_set b j = not (bit_and b (2 ^ j) == 0)

same : Bool → Bool → Bool
same true b = b
same false b = not b

same_eq : (a b : Bool) → same a b ≡ true → a ≡ b
unfolding same
same_eq true b h = sym h
same_eq false true h = cc
same_eq false false h = refl

-- What setting one bit of a byte does to another, over all of them.
bit_row : ℕ → ℕ → ℕ → Bool
unfolding is_set same
bit_row k j b =
    same (is_set (bit_or b (2 ^ k)) j) (k == j || is_set b j) && ltb (bit_or b (2 ^ k)) 256

bit_table : all_below 8 (λ k. all_below 8 (λ j. all_below 256 (bit_row k j))) ≡ true
unfolding all_below bit_row ℕ_discrete
bit_table = refl

row_at : (k j b : ℕ) → k < 8 → j < 8 → b < 256 → bit_row k j b ≡ true
row_at k j b hk hj hb =
    all_below_at 256 (bit_row k j)
      (all_below_at 8 (λ j. all_below 256 (bit_row k j))
        (all_below_at 8 (λ k. all_below 8 (λ j. all_below 256 (bit_row k j))) bit_table k hk) j hj)
      b hb

is_set-or :
    (k j b : ℕ) → k < 8 → j < 8 → b < 256 → is_set (bit_or b (2 ^ k)) j ≡ (k == j || is_set b j)
unfolding bit_row
is_set-or k j b hk hj hb = same_eq _ _ (ground (arith, row_at k j b hk hj hb))

or-IsByte : (k b : ℕ) → k < 8 → b < 256 → bit_or b (2 ^ k) < 256
unfolding bit_row
or-IsByte k b hk hb = ground (arith, row_at k 0 b hk (omega arith) hb)

abbrev pub AllBytes : Bytes → Type 0
AllBytes bytes = All (λ b. b < 256) bytes

get_or-IsByte : (bytes : Bytes) (i : ℕ) → AllBytes bytes → get_or bytes i 0 < 256
get_or-IsByte [] i h = omega arith
get_or-IsByte (b ∷ bytes) zero h = h.0
get_or-IsByte (b ∷ bytes) (suc i) h = get_or-IsByte bytes i h.1

get_or-or_at :
    (bytes : Bytes) (i j bits : ℕ)
    → i < length bytes
    → get_or (or_at bytes i bits) j 0
      ≡ (if i == j then bit_or (get_or bytes j 0) bits else get_or bytes j 0)
unfolding or_at
get_or-or_at [] i j bits h = absurd (omega (arith, h))
get_or-or_at (b ∷ bytes) zero zero bits h = ground arith
get_or-or_at (b ∷ bytes) zero (suc j) bits h = ground arith
get_or-or_at (b ∷ bytes) (suc i) zero bits h = ground arith
get_or-or_at (b ∷ bytes) (suc i) (suc j) bits h =
    ground (arith, get_or-or_at bytes i j bits (omega (arith, h)))

length-or_at : (bytes : Bytes) (i bits : ℕ) → length (or_at bytes i bits) ≡ length bytes
unfolding or_at
length-or_at [] i bits = refl
length-or_at (b ∷ bytes) zero bits = refl
length-or_at (b ∷ bytes) (suc i) bits = ap suc (length-or_at bytes i bits)

or_at-AllBytes :
    (bytes : Bytes) (i k : ℕ) → k < 8 → AllBytes bytes → AllBytes (or_at bytes i (2 ^ k))
unfolding or_at
or_at-AllBytes [] i k hk h = tt
or_at-AllBytes (b ∷ bytes) zero k hk h = (or-IsByte k b hk h.0, h.1)
or_at-AllBytes (b ∷ bytes) (suc i) k hk h = (h.0, or_at-AllBytes bytes i k hk h.1)

-- A state whose bitmap has the room and the bytes that it should.
unfoldable pub IsValid : TransferV2State → Type 0
IsValid state =
    AllBytes state.completed × (length state.completed ≡ transfer_v2_bitmap_len state.chunk_count)

pub mark_completed-IsValid :
    (state : TransferV2State) (i : ℕ) → IsValid state → IsValid (transfer_v2_mark_completed state i)
unfolding transfer_v2_mark_completed IsValid
mark_completed-IsValid state i h = (
  or_at-AllBytes state.completed (i / 8) (i % 8) (omega arith) h.0,
  length-or_at state.completed (i / 8) (2 ^ (i % 8)) ∙ h.1,
)

-- Marking a chunk marks it, and no other chunk.
pub is_completed-mark_completed :
    (state : TransferV2State) (i j : ℕ)
    → IsValid state
    → i < state.chunk_count
    → transfer_v2_is_completed (transfer_v2_mark_completed state i) j
      ≡ (i == j || transfer_v2_is_completed state j)
unfolding transfer_v2_mark_completed IsValid transfer_v2_is_completed transfer_v2_bitmap_len
    div_ceil is_set
is_completed-mark_completed state i j h k =
    let room : i / 8 < length state.completed = omega (arith, h.1, k) in
    let read = get_or-or_at state.completed (i / 8) (j / 8) (2 ^ (i % 8)) room in
    let bit =
      is_set-or (i % 8) (j % 8) (get_or state.completed (j / 8) 0) (omega arith) (omega arith)
        (get_or-IsByte state.completed (j / 8) h.0) in
    elim (Bool-cases (i / 8 == j / 8)) [
      | inl t ↦ let cell : (i == j) ≡ (i % 8 == j % 8) = ground (arith, t) in rw (read, t, cell) bit
      | inr t ↦ let other : (i == j) ≡ false = ground (arith, t) in rw (read, t, other) refl
    ]

clear_table : all_below 8 (λ j. not (is_set 0 j)) ≡ true
unfolding all_below is_set ℕ_discrete
clear_table = refl

get_or-zeros : (n i : ℕ) → get_or {A = ℕ} (replicate n 0) i 0 ≡ 0
get_or-zeros zero i = refl
get_or-zeros (suc n) zero = refl
get_or-zeros (suc n) (suc i) = get_or-zeros n i

pub length-replicate : (n b : ℕ) → length (replicate n b) ≡ n
length-replicate zero b = refl
length-replicate (suc n) b = ap suc (length-replicate n b)

zeros-AllBytes : (n : ℕ) → AllBytes (replicate n 0)
zeros-AllBytes zero = tt
zeros-AllBytes (suc n) = (omega arith, zeros-AllBytes n)

-- A new state has no chunk, and room for all of them.
pub is_completed-fresh :
    (request : TransferV2Request) (i : ℕ) → transfer_v2_is_completed (fresh_state request) i ≡ false
unfolding transfer_v2_is_completed fresh_state is_set
is_completed-fresh request i =
    let clear = all_below_at 8 (λ j. not (is_set 0 j)) clear_table (i % 8) (omega arith) in
    rw (get_or-zeros (transfer_v2_bitmap_len request.chunk_count) (i / 8)) (ground (arith, clear))

pub fresh-IsValid : (request : TransferV2Request) → IsValid (fresh_state request)
unfolding fresh_state IsValid
fresh-IsValid request = (zeros-AllBytes _, length-replicate _ 0)

pub fresh-is_current :
    (request : TransferV2Request) → is_current request (fresh_state request) ≡ true
unfolding fresh_state is_current
fresh-is_current request =
    let room = length-replicate (transfer_v2_bitmap_len request.chunk_count) 0 in
    ground (arith, room)
