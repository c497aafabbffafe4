-- ===== src/Core/Base64/Digits.antt =====
-- crates/misaka-core/src/enrollment.rs: the alphabet and the digits are inverse to one another.
use misaka.Prelude.{
  ℕ, zero, suc, ◌<◌, ◌≡◌, refl, Bool, true, false, ◌&&◌, Option, none, some, ◌==◌, nat_eq,
  ℕ_discrete, arith,
}
use misaka.Core.Base64.{symbol, digit}

-- Over a small range, check every value by evaluation.
unfoldable pub holds_below : (ℕ → Bool) → ℕ → Bool
holds_below test zero = true
holds_below test (suc bound) = holds_below test bound && test bound

pub holds_below_sound :
    (test : ℕ → Bool) {bound i : ℕ} → holds_below test bound ≡ true → i < bound → test i ≡ true
unfolding holds_below
holds_below_sound test {bound = zero} checked below = absurd (omega arith)
holds_below_sound test {bound = suc bound} {i = i} checked below =
    ground (arith, holds_below_sound test {bound = bound} {i = i})

is_some_of : Option ℕ → ℕ → Bool
is_some_of none n = false
is_some_of (some m) n = m == n

digit_table : holds_below (λ i. is_some_of (digit (symbol i)) i) 64 ≡ true
unfolding holds_below is_some_of digit symbol ℕ_discrete
digit_table = refl

is_some_of-eq : (o : Option ℕ) (n : ℕ) → is_some_of o n ≡ true → o ≡ some n
unfolding is_some_of
is_some_of-eq none n h = cc
is_some_of-eq (some m) n h = ground arith

pub digit-symbol : (i : ℕ) → i < 64 → digit (symbol i) ≡ some i
digit-symbol i lt =
    is_some_of-eq _ i (holds_below_sound (λ i. is_some_of (digit (symbol i)) i) digit_table lt)

pub digit-lt : (c : ℕ) {v : ℕ} → digit c ≡ some v → v < 64
unfolding digit
digit-lt c h = ground arith

is_symbol_of : Option ℕ → ℕ → Bool
is_symbol_of none c = true
is_symbol_of (some v) c = symbol v == c

symbol_table : holds_below (λ c. is_symbol_of (digit c) c) 128 ≡ true
unfolding holds_below is_symbol_of digit symbol ℕ_discrete
symbol_table = refl

digit_ascii : (c : ℕ) {v : ℕ} → digit c ≡ some v → c < 128
unfolding digit
digit_ascii c h = ground arith

is_symbol_of-eq : (o : Option ℕ) (c v : ℕ) → is_symbol_of o c ≡ true → o ≡ some v → symbol v ≡ c
unfolding is_symbol_of
is_symbol_of-eq none c v h e = cc
is_symbol_of-eq (some u) c v h e = ground arith

pub symbol-digit : (c v : ℕ) → digit c ≡ some v → symbol v ≡ c
symbol-digit c v h =
    is_symbol_of-eq (digit c) c v
      (holds_below_sound (λ c. is_symbol_of (digit c) c) symbol_table (digit_ascii c h)) h
