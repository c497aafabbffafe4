-- ===== src/Core/Base64/Roundtrip.antt =====
-- crates/misaka-core/src/enrollment.rs: encoding and decoding are inverse to one another.
use misaka.Prelude.{
  ℕ, ◌%◌, ◌<◌, ◌≡◌, ◌≢◌, refl, sym, ap, ◌∙◌, Bytes, Text, true, false, some, [], ◌∷◌, ◌++◌, ◌==◌,
  nat_eq, arith, length, All,
}
use mathlib.Core.List.{append-nil, append_assoc}
use misaka.Core.Base64.{
  group, sextet, base64url_encode, digit, decode_loop, finish, base64url_decode,
}
use misaka.Core.Base64.Digits.{digit-symbol, digit-lt}
use misaka.Core.Base64.Steps.{
  between, byte0, byte1, byte2, after_two, after_three, after_four, decode_two, decode_third,
  decode_fourth,
}

-- The sextets of a chunk.
sextets :
    (a b c : ℕ)
    → a < 256
    → b < 256
    → c < 256
    → (sextet (group a b c) 18 < 64)
      × (sextet (group a b c) 12 < 64)
      × (sextet (group a b c) 6 < 64)
      × (sextet (group a b c) 0 < 64)
sextets a b c p q r = omega arith

bytes :
    (a b c : ℕ)
    → a < 256
    → b < 256
    → c < 256
    → (byte0 (sextet (group a b c) 18) (sextet (group a b c) 12) ≡ a)
      × (byte1 (sextet (group a b c) 12) (sextet (group a b c) 6) ≡ b)
      × (byte2 (sextet (group a b c) 6) (sextet (group a b c) 0) ≡ c)
bytes a b c p q r = omega arith

unfoldable pub IsByte : ℕ → Type 0
IsByte b = b < 256

module _ (c0 c1 c2 c3 u v x y : ℕ) (rest : Text) (out : Bytes) where
  pub decode_chunk :
      digit c0 ≡ some u
      → digit c1 ≡ some v
      → digit c2 ≡ some x
      → digit c3 ≡ some y
      → decode_loop (c0 ∷ c1 ∷ c2 ∷ c3 ∷ rest) (between out)
        ≡ decode_loop rest (between (out ++ byte0 u v ∷ byte1 v x ∷ byte2 x y ∷ []))
  unfolding after_four
  decode_chunk p q r t =
      decode_two c0 c1 u v (c2 ∷ c3 ∷ rest) out p q
      ∙ decode_third c2 u v x (c3 ∷ rest) out (digit-lt c1 q) r
      ∙ decode_fourth c3 u v x y rest out (digit-lt c2 r) t
      ∙ ap (λ o. decode_loop rest (between o)) (rw (append_assoc, append_assoc) refl)

length-encode : (xs : Bytes) → length (base64url_encode xs) % 4 ≢ 1
unfolding base64url_encode length
length-encode [] = ground arith
length-encode (a ∷ []) = ground arith
length-encode (a ∷ b ∷ []) = ground arith
length-encode (a ∷ b ∷ c ∷ xs) = ground (arith, length-encode xs)

pub finish_two :
    (c0 c1 u v : ℕ) (out : Bytes)
    → digit c0 ≡ some u
    → digit c1 ≡ some v
    → v % 16 ≡ 0
    → finish (decode_loop (c0 ∷ c1 ∷ []) (between out)) ≡ some (out ++ byte0 u v ∷ [])
unfolding finish decode_loop after_two
finish_two c0 c1 u v out p q z = ap finish (decode_two c0 c1 u v [] out p q) ∙ ground arith

pub finish_three :
    (c0 c1 c2 u v x : ℕ) (out : Bytes)
    → digit c0 ≡ some u
    → digit c1 ≡ some v
    → digit c2 ≡ some x
    → x % 4 ≡ 0
    → finish (decode_loop (c0 ∷ c1 ∷ c2 ∷ []) (between out))
      ≡ some (out ++ byte0 u v ∷ byte1 v x ∷ [])
unfolding finish decode_loop after_three
finish_three c0 c1 c2 u v x out p q r z =
    ap finish
      (decode_two c0 c1 u v (c2 ∷ []) out p q ∙ decode_third c2 u v x [] out (digit-lt c1 q) r)
    ∙ (let e : (x % 4 == 0) ≡ true = ground arith in rw (e, append_assoc) refl)

finish-encode :
    (xs out : Bytes)
    → All IsByte xs
    → finish (decode_loop (base64url_encode xs) (between out)) ≡ some (out ++ xs)
unfolding base64url_encode IsByte
finish-encode [] out h =
    let e : finish (decode_loop [] (between out)) ≡ some out =
      unfold finish decode_loop in ground arith in
    e ∙ ap some (sym (append-nil out))
finish-encode (a ∷ []) out h =
    let s = sextets a 0 0 h.0 (omega arith) (omega arith) in
    finish_two _ _ _ _ out (digit-symbol _ s.0) (digit-symbol _ s.1) (omega arith)
    ∙ ap (λ b. some (out ++ b ∷ [])) (bytes a 0 0 h.0 (omega arith) (omega arith)).0
finish-encode (a ∷ b ∷ []) out h =
    let s = sextets a b 0 h.0 h.1.0 (omega arith) in
    let e = bytes a b 0 h.0 h.1.0 (omega arith) in
    finish_three _ _ _ _ _ _ out (digit-symbol _ s.0) (digit-symbol _ s.1) (digit-symbol _ s.2)
      (omega arith)
    ∙ rw (e.0, e.1) refl
finish-encode (a ∷ b ∷ c ∷ xs) out h =
    let s = sextets a b c h.0 h.1.0 h.1.1.0 in
    let e = bytes a b c h.0 h.1.0 h.1.1.0 in
    ap finish (
      decode_chunk _ _ _ _ _ _ _ _ _ out (digit-symbol _ s.0) (digit-symbol _ s.1)
        (digit-symbol _ s.2) (digit-symbol _ s.3))
    ∙ finish-encode xs _ h.1.1.1
    ∙ rw (e.0, e.1, e.2, append_assoc) refl

-- Decoding gives back what was encoded.
pub decode-encode : (xs : Bytes) → All IsByte xs → base64url_decode (base64url_encode xs) ≡ some xs
unfolding base64url_decode
decode-encode xs h =
    let e : (length (base64url_encode xs) % 4 == 1) ≡ false = ground (arith, length-encode xs) in
    rw e (finish-encode xs [] h)
