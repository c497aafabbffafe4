-- ===== src/Core/Base64/Canonical.antt =====
-- crates/misaka-core/src/enrollment.rs: the decoder accepts one spelling of each byte string.
use misaka.Prelude.{
  ℕ, ◌%◌, ◌<◌, ◌≡◌, ◌≢◌, refl, sym, ap, ◌∙◌, Bytes, Text, false, some, [], ◌∷◌, ◌++◌, ◌==◌, nat_eq,
  arith, inl, inr, Option-cases, length,
}
use mathlib.Core.List.{append-nil, append_assoc}
use misaka.Core.Base64.{
  group, sextet, base64url_encode, digit, Decoder, absorb, decode_loop, finish, base64url_decode,
}
use misaka.Core.Base64.Digits.{digit-lt, symbol-digit}
use misaka.Core.Base64.Steps.{
  between, byte0, byte1, byte2, after_two, after_three, decode_two, decode_third, decode_step,
}
use misaka.Core.Base64.Roundtrip.{decode_chunk}

-- An accepted text starts with a digit, and the rest is accepted from the next state.
invert :
    (c : ℕ) (rest : Text) (d : Decoder) (b : Bytes)
    → finish (decode_loop (c ∷ rest) d) ≡ some b
    → (v : ℕ) × (digit c ≡ some v) × (finish (decode_loop rest (absorb d v)) ≡ some b)
invert c rest d b h = elim (Option-cases (digit c)) [
  | inl p ↦ unfold decode_loop finish in ground arith
  | inr p ↦ (p.0, p.1, ap finish (sym (decode_step c p.0 rest d p.1)) ∙ h)
]

regroup :
    (u v x y : ℕ)
    → u < 64
    → v < 64
    → x < 64
    → y < 64
    → (sextet (group (byte0 u v) (byte1 v x) (byte2 x y)) 18 ≡ u)
      × (sextet (group (byte0 u v) (byte1 v x) (byte2 x y)) 12 ≡ v)
      × (sextet (group (byte0 u v) (byte1 v x) (byte2 x y)) 6 ≡ x)
      × (sextet (group (byte0 u v) (byte1 v x) (byte2 x y)) 0 ≡ y)
regroup u v x y p q r t = omega arith

regroup_two :
    (u v : ℕ)
    → u < 64
    → v < 64
    → v % 16 ≡ 0
    → (sextet (group (byte0 u v) 0 0) 18 ≡ u) × (sextet (group (byte0 u v) 0 0) 12 ≡ v)
regroup_two u v p q z = omega arith

regroup_three :
    (u v x : ℕ)
    → u < 64
    → v < 64
    → x < 64
    → x % 4 ≡ 0
    → (sextet (group (byte0 u v) (byte1 v x) 0) 18 ≡ u)
      × (sextet (group (byte0 u v) (byte1 v x) 0) 12 ≡ v)
      × (sextet (group (byte0 u v) (byte1 v x) 0) 6 ≡ x)
regroup_three u v x p q r z = omega arith

finish-some :
    (d : Decoder) (b : Bytes) → finish (some d) ≡ some b → (d.accumulator ≡ 0) × (d.output ≡ b)
unfolding finish
finish-some d b h = ground arith

canonical :
    (s out b : Bytes)
    → length s % 4 ≢ 1
    → finish (decode_loop s (between out)) ≡ some b
    → (bs : Bytes) × (b ≡ out ++ bs) × (base64url_encode bs ≡ s)
unfolding base64url_encode length decode_loop after_two after_three
canonical [] out b l h = ([], sym (finish-some (between out) b h).1 ∙ sym (append-nil out), refl)
canonical (c0 ∷ []) out b l h = absurd (l refl)
canonical (c0 ∷ c1 ∷ []) out b l h =
    let i0 = invert c0 (c1 ∷ []) (between out) b h in
    let i1 = invert c1 [] _ b i0.2 in
    let f =
      finish-some (after_two out i0.0 i1.0) b
        (ap finish (sym (decode_two c0 c1 i0.0 i1.0 [] out i0.1 i1.1)) ∙ h) in
    let g = regroup_two i0.0 i1.0 (digit-lt c0 i0.1) (digit-lt c1 i1.1) f.0 in
    (
      byte0 i0.0 i1.0 ∷ [],
      sym f.1,
      rw (g.0, g.1, symbol-digit c0 i0.0 i0.1, symbol-digit c1 i1.0 i1.1) refl,
    )
canonical (c0 ∷ c1 ∷ c2 ∷ []) out b l h =
    let i0 = invert c0 (c1 ∷ c2 ∷ []) (between out) b h in
    let i1 = invert c1 (c2 ∷ []) _ b i0.2 in
    let i2 = invert c2 [] _ b i1.2 in
    let f = finish-some (after_three out i0.0 i1.0 i2.0) b (
      ap finish (
        sym (
          decode_two c0 c1 i0.0 i1.0 (c2 ∷ []) out i0.1 i1.1
          ∙ decode_third c2 i0.0 i1.0 i2.0 [] out (digit-lt c1 i1.1) i2.1))
      ∙ h) in
    let g =
      regroup_three i0.0 i1.0 i2.0 (digit-lt c0 i0.1) (digit-lt c1 i1.1) (digit-lt c2 i2.1) f.0 in
    (
      byte0 i0.0 i1.0 ∷ byte1 i1.0 i2.0 ∷ [],
      sym f.1 ∙ append_assoc out (byte0 i0.0 i1.0 ∷ []) (byte1 i1.0 i2.0 ∷ []),
      rw
          (
            g.0,
            g.1,
            g.2,
            symbol-digit c0 i0.0 i0.1,
            symbol-digit c1 i1.0 i1.1,
            symbol-digit c2 i2.0 i2.1,
          )
          refl,
    )
canonical (c0 ∷ c1 ∷ c2 ∷ c3 ∷ rest) out b l h =
    let i0 = invert c0 (c1 ∷ c2 ∷ c3 ∷ rest) (between out) b h in
    let i1 = invert c1 (c2 ∷ c3 ∷ rest) _ b i0.2 in
    let i2 = invert c2 (c3 ∷ rest) _ b i1.2 in
    let i3 = invert c3 rest _ b i2.2 in
    let e = decode_chunk c0 c1 c2 c3 i0.0 i1.0 i2.0 i3.0 rest out i0.1 i1.1 i2.1 i3.1 in
    let g =
      regroup i0.0 i1.0 i2.0 i3.0 (digit-lt c0 i0.1) (digit-lt c1 i1.1) (digit-lt c2 i2.1)
        (digit-lt c3 i3.1) in
    let k = canonical rest _ b (ground arith) (ap finish (sym e) ∙ h) in
    (
      byte0 i0.0 i1.0 ∷ byte1 i1.0 i2.0 ∷ byte2 i2.0 i3.0 ∷ k.0,
      k.1 ∙ append_assoc out (byte0 i0.0 i1.0 ∷ byte1 i1.0 i2.0 ∷ byte2 i2.0 i3.0 ∷ []) k.0,
      rw
          (
            g.0,
            g.1,
            g.2,
            g.3,
            symbol-digit c0 i0.0 i0.1,
            symbol-digit c1 i1.0 i1.1,
            symbol-digit c2 i2.0 i2.1,
            symbol-digit c3 i3.0 i3.1,
            k.2,
          )
          refl,
    )

not_one : (s b : Bytes) → base64url_decode s ≡ some b → length s % 4 ≢ 1
unfolding base64url_decode
not_one s b h l = ground (arith)

decode-finish :
    (s : Bytes) → length s % 4 ≢ 1 → finish (decode_loop s (between [])) ≡ base64url_decode s
unfolding base64url_decode
decode-finish s l = let e : (length s % 4 == 1) ≡ false = ground arith in sym (rw e refl)

-- A text that decodes is the encoding of what it decodes to.
pub encode-decode : (s b : Bytes) → base64url_decode s ≡ some b → base64url_encode b ≡ s
unfolding base64url_decode
encode-decode s b h =
    let l = not_one s b h in
    let k = canonical s [] b l (decode-finish s l ∙ h) in ap base64url_encode k.1 ∙ k.2
