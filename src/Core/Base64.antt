-- ===== src/Core/Base64.antt =====
-- crates/misaka-core/src/enrollment.rs: the unpadded URL-safe base64 of invite codes. A shift is a
-- product or a quotient by a power of two; `|` joins numbers with no common bit, so it is a sum.
pub mod Digits
mod Steps
pub mod Roundtrip
pub mod Canonical
use misaka.Prelude.{
  ℕ, zero, suc, ◌+◌, ◌-◌, ◌*◌, ◌/◌, ◌%◌, ◌^◌, Bytes, Text, Bool, ◌&&◌, Option, none, some, List, [],
  ◌∷◌, ◌++◌, leb, ◌==◌, nat_eq, if◌then◌else◌, codes, length, get_or,
}

-- BASE64URL_ALPHABET
abbrev pub alphabet : Bytes
alphabet = codes "ABCDEFGHIJKLMNOPQRSTUVWXYZabcdefghijklmnopqrstuvwxyz0123456789-_"

unfoldable pub symbol : ℕ → ℕ
symbol index = get_or alphabet index 0

-- The 24 bits of a chunk, and its four six-bit digits.
abbrev pub group : ℕ → ℕ → ℕ → ℕ
group b0 b1 b2 = b0 * 2 ^ 16 + b1 * 2 ^ 8 + b2

abbrev pub sextet : ℕ → ℕ → ℕ
sextet g shift = g / 2 ^ shift % 64

unfoldable pub base64url_encode : Bytes → Text
base64url_encode [] = []
base64url_encode (b0 ∷ []) =
    let g = group b0 0 0 in symbol (sextet g 18) ∷ symbol (sextet g 12) ∷ []
base64url_encode (b0 ∷ b1 ∷ []) =
    let g = group b0 b1 0 in symbol (sextet g 18) ∷ symbol (sextet g 12) ∷ symbol (sextet g 6) ∷ []
base64url_encode (b0 ∷ b1 ∷ b2 ∷ rest) =
    let g = group b0 b1 b2 in
    symbol (sextet g 18)
    ∷ symbol (sextet g 12)
    ∷ symbol (sextet g 6)
    ∷ symbol (sextet g 0)
    ∷ base64url_encode rest

-- The value of a character, `none` outside the alphabet.
unfoldable pub digit : ℕ → Option ℕ
digit c =
    if leb b'A' c && leb c b'Z'
    then some (c - b'A')
    else if leb b'a' c && leb c b'z'
    then some (c - b'a' + 26)
    else if leb b'0' c && leb c b'9'
    then some (c - b'0' + 52)
    else if c == b'-'
    then some 62
    else if c == b'_'
    then some 63
    else none

pub record Decoder : Type 0 where
  pub accumulator : ℕ
  pub bits : ℕ
  pub output : Bytes

-- One round of the loop, for a digit; u32 arithmetic.
unfoldable pub absorb : Decoder → ℕ → Decoder
absorb d value =
    let accumulator = d.accumulator * 2 ^ 6 % 2 ^ 32 + value in
    let bits = d.bits + 6 in
    if leb 8 bits
    then record {
      accumulator = accumulator % 2 ^ (bits - 8);
      bits = bits - 8;
      output = d.output ++ (accumulator / 2 ^ (bits - 8) % 256) ∷ [];
    }
    else record { accumulator = accumulator; bits = bits; output = d.output }

unfoldable pub decode_loop : Text → Decoder → Option Decoder
decode_loop [] d = some d
decode_loop (c ∷ cs) d = elim (digit c) [ none ↦ none | some v ↦ decode_loop cs (absorb d v) ]

-- Leftover bits must be zero.
unfoldable pub finish : Option Decoder → Option Bytes
finish none = none
finish (some d) = if d.accumulator == 0 then some d.output else none

unfoldable pub base64url_decode : Text → Option Bytes
unfolding finish
base64url_decode input =
    if length input % 4 == 1
    then none
    else finish (decode_loop input (record { accumulator = 0; bits = 0; output = [] }))
