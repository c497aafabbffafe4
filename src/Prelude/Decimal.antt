-- ===== src/Prelude/Decimal.antt =====
-- `u64::to_string` and `str::parse::<u64>`, on code points.
use mathlib.Core.Path.{◌≡◌, refl, sym, ap, ◌∙◌}
use mathlib.Core.Bool.{false, ◌&&◌}
use mathlib.Core.Option.{Option, none, some}
use mathlib.Core.List.{[], ◌∷◌}
use mathlib.Core.List.{append-nil}
use mathlib.Core.Logic.{inl, inr}
use Prim.Native.Nat.{ℕ, zero, suc, ◌+◌, ◌-◌, ◌*◌, ◌/◌, ◌%◌, ◌^◌, ◌≤◌}
use native.Mathlib.Omega.{arith}
use misaka.Prelude.Tests.{if◌then◌else◌, ◌==◌, nat_eq, leb, ltb, Text, Bool-cases}
use misaka.Prelude.Lists.{All}
use misaka.Prelude.Texts.{IsInk, is_whitespace, trim, trim_padded}

abbrev pub u64_max : ℕ
u64_max = 2 ^ 64 - 1

-- The digits of a number in front of `t`; as many rounds as the number are enough.
unfoldable pub decimal : ℕ → ℕ → Text → Text
decimal zero n t = (48 + n % 10) ∷ t
decimal (suc fuel) n t =
    let more = decimal fuel (n / 10) ((48 + n % 10) ∷ t) in if ltb n 10 then (48 + n) ∷ t else more

unfoldable pub to_string : ℕ → Text
to_string n = decimal n n []

-- A digit outside '0'..='9', or a number above u64::MAX, is an error.
unfoldable pub parse_digits : ℕ → Text → Option ℕ
parse_digits n [] = some n
parse_digits n (c ∷ cs) =
    let next = n * 10 + (c - 48) in
    let rest = parse_digits next cs in
    if leb 48 c && leb c 57 && leb next u64_max then rest else none

unfoldable pub parse_some : Text → Option ℕ
parse_some [] = none
parse_some (c ∷ cs) = parse_digits 0 (c ∷ cs)

unfoldable pub parse_u64 : Text → Option ℕ
unfolding parse_some
parse_u64 [] = none
parse_u64 (c ∷ cs) = if c == b'+' then parse_some cs else parse_some (c ∷ cs)

parse-decimal :
    (fuel n : ℕ) (t : Text)
    → n ≤ fuel
    → n ≤ u64_max
    → parse_digits 0 (decimal fuel n t) ≡ parse_digits n t
unfolding decimal parse_digits
parse-decimal zero n t h k = ground arith
parse-decimal (suc fuel) n t h k = ground (arith, parse-decimal fuel (n / 10) ((48 + n % 10) ∷ t))

IsDigit : ℕ → Type 0
IsDigit c = (48 ≤ c) × (c ≤ 57)

-- There is a first digit, and all are digits.
IsNumeral : Text → Type 0
IsNumeral t = (c : ℕ) × (cs : Text) × (t ≡ c ∷ cs) × IsDigit c × All IsDigit cs

decimal-IsNumeral : (fuel n : ℕ) (t : Text) → All IsDigit t → IsNumeral (decimal fuel n t)
unfolding decimal IsNumeral IsDigit
decimal-IsNumeral zero n t h = (_, _, refl, (omega arith, omega arith), h)
decimal-IsNumeral (suc fuel) n t h = elim (Bool-cases (ltb n 10)) [
  | inl p ↦ rw p (_, _, refl, (omega arith, ground arith), h)
  | inr p ↦ rw p (decimal-IsNumeral fuel (n / 10) _ ((omega arith, omega arith), h))
]

digit-IsInk : (c : ℕ) → IsDigit c → IsInk c
unfolding IsDigit IsInk is_whitespace
digit-IsInk c h = ground arith

digits-IsInk : (t : Text) → All IsDigit t → All IsInk t
digits-IsInk [] h = tt
digits-IsInk (c ∷ t) h = (digit-IsInk c h.0, digits-IsInk t h.1)

numeral_trim : (t : Text) → IsNumeral t → trim t ≡ t
unfolding IsNumeral
numeral_trim t (c, cs, e, d, ds) =
    let i : All IsInk (c ∷ cs) = (digit-IsInk c d, digits-IsInk cs ds) in
    ap trim e ∙ ap trim (sym (append-nil (c ∷ cs))) ∙ trim_padded [] cs [] c tt i tt ∙ sym e

numeral_parse : (t : Text) → IsNumeral t → parse_u64 t ≡ parse_digits 0 t
unfolding IsNumeral parse_u64 parse_some IsDigit
numeral_parse t (c, cs, e, d, ds) =
    let plus : (c == b'+') ≡ false = ground arith in rw (e, plus) refl

-- What is printed, and then trimmed, reads back.
pub parse-to_string : (n : ℕ) → n ≤ u64_max → parse_u64 (trim (to_string n)) ≡ some n
unfolding to_string
parse-to_string n h =
    let k = decimal-IsNumeral n n [] tt in
    ap parse_u64 (numeral_trim _ k)
    ∙ numeral_parse _ k
    ∙ parse-decimal n n [] (omega arith) h
    ∙ (unfold parse_digits in refl)
