-- ===== src/Core/InviteCode/Paste.antt =====
-- crates/misaka-core/src/enrollment.rs: a code survives copying, with white space around it.
use misaka.Prelude.{
  ℕ, ◌<◌, ◌≡◌, refl, sym, Bytes, Text, true, not, some, [], ◌∷◌, ◌++◌, nat_eq, ℕ_discrete, codes,
  All, arith, is_whitespace, strip_prefix-append, trim_padded, IsWhitespace, IsInk,
}
use misaka.Prelude.Result.{ok}
use misaka.Core.Types.{EnrollmentInvite}
use misaka.Core.Base64.{symbol, sextet, group, base64url_encode, base64url_decode}
use misaka.Core.Base64.Digits.{holds_below, holds_below_sound}
use misaka.Core.Base64.Roundtrip.{decode-encode, IsByte}
use misaka.Core.InviteCode.{invite_code_prefix, encode_code, decode_code}
use misaka.Core.Wire.{Wire, CodesSoundly}

symbols_ink : holds_below (λ i. not (is_whitespace (symbol i))) 64 ≡ true
unfolding holds_below is_whitespace symbol ℕ_discrete
symbols_ink = refl

symbol-IsInk : (i : ℕ) → i < 64 → IsInk (symbol i)
unfolding IsInk
symbol-IsInk i lt =
    let e = holds_below_sound (λ i. not (is_whitespace (symbol i))) symbols_ink lt in
    ground (arith, e)

sextet-IsInk : (g shift : ℕ) → IsInk (symbol (sextet g shift))
sextet-IsInk g shift = symbol-IsInk (sextet g shift) (ground arith)

encode-IsInk : (xs : Bytes) → All IsInk (base64url_encode xs)
unfolding base64url_encode
encode-IsInk [] = tt
encode-IsInk (a ∷ []) = let g = group a 0 0 in (sextet-IsInk g 18, (sextet-IsInk g 12, tt))
encode-IsInk (a ∷ b ∷ []) =
    let g = group a b 0 in (sextet-IsInk g 18, (sextet-IsInk g 12, (sextet-IsInk g 6, tt)))
encode-IsInk (a ∷ b ∷ c ∷ xs) =
    let g = group a b c in
    (
      sextet-IsInk g 18,
      (sextet-IsInk g 12, (sextet-IsInk g 6, (sextet-IsInk g 0, encode-IsInk xs))),
    )

prefix-IsInk : (t : Text) → All IsInk t → All IsInk (invite_code_prefix ++ t)
unfolding IsInk is_whitespace ℕ_discrete
prefix-IsInk t h = (refl, (refl, (refl, (refl, (refl, (refl, (refl, (refl, h))))))))

ok_code :
    ⦃w : Wire⦄ (invite : EnrollmentInvite) (code : Text)
    → encode_code invite ≡ ok code
    → invite_code_prefix ++ base64url_encode (w.invite_code_bytes invite) ≡ code
unfolding encode_code
ok_code invite code e = cc

module _ ⦃w : Wire⦄ where
  -- Decoding an invite's code gives the invite back, whatever white space is around the code, when
  -- bincode writes bytes for the invite and reads it back.
  pub decode_code-encode_code :
      (invite : EnrollmentInvite) (code pre post : Text)
      → CodesSoundly w invite
      → encode_code invite ≡ ok code
      → All IsWhitespace pre
      → All IsWhitespace post
      → decode_code (pre ++ (code ++ post)) ≡ ok invite
  unfolding decode_code
  decode_code-encode_code invite code pre post s e h k =
      let body = base64url_encode (w.invite_code_bytes invite) in
      let c : code ≡ invite_code_prefix ++ body = sym (ok_code invite code e) in
      let t =
        trim_padded pre (codes "isaka1_" ++ body) post b'm' h (prefix-IsInk body (encode-IsInk _))
          k in
      let decoded : base64url_decode body ≡ some (w.invite_code_bytes invite) =
        unfold IsByte in decode-encode (w.invite_code_bytes invite) s.writes_bytes in
      rw (c, t, strip_prefix-append invite_code_prefix body, decoded, s.reads_back) refl
