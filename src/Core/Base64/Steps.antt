-- ===== src/Core/Base64/Steps.antt =====
-- crates/misaka-core/src/enrollment.rs: the decoder's loop over the digits of a chunk.
use misaka.Prelude.{
  ℕ, ◌+◌, ◌*◌, ◌%◌, ◌/◌, ◌<◌, ◌≡◌, refl, ap, ◌∙◌, Bytes, Text, some, [], ◌∷◌, ◌++◌, nat_eq, arith,
}
use misaka.Core.Base64.{digit, Decoder, absorb, decode_loop}
use misaka.Core.Base64.Digits.{digit-lt}

-- The decoder between two chunks.
abbrev pub between : Bytes → Decoder
between out = record { accumulator = 0; bits = 0; output = out }

module _ (out : Bytes) where
  absorb_first :
      (v : ℕ) → v < 64 → absorb (between out) v ≡ record { accumulator = v; bits = 6; output = out }
  unfolding absorb
  absorb_first v h = ground arith

  absorb_second :
      (a v : ℕ)
      → a < 64
      → v < 64
      → absorb (record { accumulator = a; bits = 6; output = out }) v ≡ record {
        accumulator = (a * 64 + v) % 16;
        bits = 4;
        output = out ++ ((a * 64 + v) / 16) ∷ [];
      }
  unfolding absorb
  absorb_second a v p q = ground arith

  absorb_third :
      (a v : ℕ)
      → a < 16
      → v < 64
      → absorb (record { accumulator = a; bits = 4; output = out }) v ≡ record {
        accumulator = (a * 64 + v) % 4;
        bits = 2;
        output = out ++ ((a * 64 + v) / 4) ∷ [];
      }
  unfolding absorb
  absorb_third a v p q = ground arith

  absorb_fourth :
      (a v : ℕ)
      → a < 4
      → v < 64
      → absorb (record { accumulator = a; bits = 2; output = out }) v
        ≡ between (out ++ (a * 64 + v) ∷ [])
  unfolding absorb
  absorb_fourth a v p q = ground arith

-- The three bytes of four digits.
abbrev pub byte0 : ℕ → ℕ → ℕ
byte0 u v = (u * 64 + v) / 16

abbrev pub byte1 : ℕ → ℕ → ℕ
byte1 v x = (v % 16 * 64 + x) / 4

abbrev pub byte2 : ℕ → ℕ → ℕ
byte2 x y = x % 4 * 64 + y

pub decode_step :
    (c v : ℕ) (rest : Text) (d : Decoder)
    → digit c ≡ some v
    → decode_loop (c ∷ rest) d ≡ decode_loop rest (absorb d v)
unfolding decode_loop
decode_step c v rest d p = rw (p, decode_loop) refl

-- The decoder after two, three and four digits of a chunk.
unfoldable pub after_two : Bytes → ℕ → ℕ → Decoder
after_two out u v = record { accumulator = v % 16; bits = 4; output = out ++ byte0 u v ∷ [] }

unfoldable pub after_three : Bytes → ℕ → ℕ → ℕ → Decoder
after_three out u v x = record {
  accumulator = x % 4;
  bits = 2;
  output = (out ++ byte0 u v ∷ []) ++ byte1 v x ∷ [];
}

unfoldable pub after_four : Bytes → ℕ → ℕ → ℕ → ℕ → Decoder
after_four out u v x y = between (((out ++ byte0 u v ∷ []) ++ byte1 v x ∷ []) ++ byte2 x y ∷ [])

module _ (out : Bytes) (u v x y : ℕ) where
  absorb_two : u < 64 → v < 64 → absorb (absorb (between out) u) v ≡ after_two out u v
  unfolding after_two
  absorb_two p q = rw (absorb_first out u p, absorb_second out u v p q) (ground arith)

  absorb_three : v < 64 → x < 64 → absorb (after_two out u v) x ≡ after_three out u v x
  unfolding after_two after_three
  absorb_three q r =
      rw (absorb_third (out ++ byte0 u v ∷ []) (v % 16) x (omega arith) r) (ground arith)

  absorb_four : x < 64 → y < 64 → absorb (after_three out u v x) y ≡ after_four out u v x y
  unfolding after_three after_four
  absorb_four r t =
      absorb_fourth ((out ++ byte0 u v ∷ []) ++ byte1 v x ∷ []) (x % 4) y (omega arith) t

pub decode_two :
    (c0 c1 u v : ℕ) (rest : Text) (out : Bytes)
    → digit c0 ≡ some u
    → digit c1 ≡ some v
    → decode_loop (c0 ∷ c1 ∷ rest) (between out) ≡ decode_loop rest (after_two out u v)
decode_two c0 c1 u v rest out p q =
    decode_step c0 u (c1 ∷ rest) (between out) p
    ∙ decode_step c1 v rest (absorb (between out) u) q
    ∙ ap (decode_loop rest) (absorb_two out u v 0 0 (digit-lt c0 p) (digit-lt c1 q))

pub decode_third :
    (c u v x : ℕ) (rest : Text) (out : Bytes)
    → v < 64
    → digit c ≡ some x
    → decode_loop (c ∷ rest) (after_two out u v) ≡ decode_loop rest (after_three out u v x)
decode_third c u v x rest out q r =
    decode_step c x rest (after_two out u v) r
    ∙ ap (decode_loop rest) (absorb_three out u v x 0 q (digit-lt c r))

pub decode_fourth :
    (c u v x y : ℕ) (rest : Text) (out : Bytes)
    → x < 64
    → digit c ≡ some y
    → decode_loop (c ∷ rest) (after_three out u v x) ≡ decode_loop rest (after_four out u v x y)
decode_fourth c u v x y rest out r t =
    decode_step c y rest (after_three out u v x) t
    ∙ ap (decode_loop rest) (absorb_four out u v x y r (digit-lt c t))
