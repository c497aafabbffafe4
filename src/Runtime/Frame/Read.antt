-- ===== src/Runtime/Frame/Read.antt =====
-- crates/misaka-runtime/src: what reading a frame does to the stream.
use misaka.Prelude.{
  ℕ, zero, suc, ◌≤◌, ◌≡◌, refl, sym, ap, ◌∙◌, inl, inr, Bytes, false, some, [], ◌∷◌, ◌++◌, length,
  ltb, Bool-cases, Option-cases, subst, arith,
}
use misaka.Prelude.Result.{ok}
use misaka.Runtime.Frame.{
  Codec, to_be_bytes, from_be_bytes, put_back, read_exact, frame, write_frame, decode_payload,
  read_payload, read_sized, read_frame,
}

from_be_bytes-to_be_bytes : (n : ℕ) → n ≤ 4294967295 → from_be_bytes 0 (to_be_bytes n) ≡ n
unfolding from_be_bytes to_be_bytes
from_be_bytes-to_be_bytes n h = omega (arith, h)

read_exact-append :
    (bytes rest : Bytes) → read_exact (length bytes) (bytes ++ rest) ≡ some (bytes, rest)
unfolding read_exact put_back
read_exact-append [] rest = refl
read_exact-append (b ∷ bytes) rest = rw (read_exact-append bytes rest) refl

read_header :
    (payload rest : Bytes)
    → read_exact 4 (frame payload ++ rest) ≡ some (to_be_bytes (length payload), payload ++ rest)
unfolding read_exact put_back frame to_be_bytes
read_header payload rest = refl

read_exact-length :
    (n : ℕ) (stream bytes rest : Bytes)
    → read_exact n stream ≡ some (bytes, rest)
    → (length bytes ≡ n) × (stream ≡ bytes ++ rest)
unfolding read_exact put_back
read_exact-length zero stream bytes rest h =
    let none_read : [] ≡ bytes = ground (arith, h) in
    subst (λ b. (length b ≡ 0) × (stream ≡ b ++ rest)) none_read (refl, ground (arith, h))
read_exact-length (suc n) [] bytes rest h = cc
read_exact-length (suc n) (b ∷ stream) bytes rest h = elim (Option-cases (read_exact n stream)) [
  | inl e ↦ absurd (ground (arith, e, h))
  | inr ((more, left), e) ↦
      let ih = read_exact-length n stream more left e in
      let first : b ∷ more ≡ bytes = ground (arith, e, h) in
      let last : left ≡ rest = ground (arith, e, h) in
      subst (λ t. (length t ≡ suc n) × (b ∷ stream ≡ t ++ rest)) first
        (ap suc ih.0, ap (λ t. b ∷ t) (ih.1 ∙ ap (λ t. more ++ t) last))
]

module _ {ℓ} {A : Type ℓ} where
  read_frame-frame :
      (max_length : ℕ) (c : Codec A) (payload rest : Bytes)
      → max_length ≤ 4294967295
      → length payload ≤ max_length
      → read_frame max_length c (frame payload ++ rest) ≡ decode_payload (c.decode payload) rest
  unfolding read_frame
  read_frame-frame max_length c payload rest h k =
      let small : ltb max_length (length payload) ≡ false = ground (arith, k) in
      let whole = from_be_bytes-to_be_bytes (length payload) (omega (arith, h, k)) in
      rw (read_header payload rest, read_sized, whole, small, read_exact-append payload rest)
        (unfold read_payload in refl)

  pub write_frame-fits :
      (max_length : ℕ) (c : Codec A) (value : A)
      → length (c.encode value) ≤ max_length
      → write_frame max_length c value ≡ ok (frame (c.encode value))
  unfolding write_frame
  write_frame-fits max_length c value h = ground (arith, h)

  -- A frame that is written under a limit of at most u32::MAX is read under it as the value that was
  -- written, and what was sent after it is left on the stream, when the codec reads back that value.
  pub read_frame-write_frame :
      (max_length : ℕ) (c : Codec A) (value : A) (sent rest : Bytes)
      → max_length ≤ 4294967295
      → c.decode (c.encode value) ≡ some value
      → write_frame max_length c value ≡ ok sent
      → read_frame max_length c (sent ++ rest) ≡ ok (value, rest)
  unfolding write_frame
  read_frame-write_frame max_length c value sent rest h k w =
      elim (Bool-cases (ltb max_length (length (c.encode value)))) [
        | inl t ↦ absurd (ground (arith, t, w))
        | inr t ↦
            let fits : length (c.encode value) ≤ max_length = ground (arith, t) in
            let same : frame (c.encode value) ≡ sent = ground (arith, t, w) in
            subst (λ s. read_frame max_length c (s ++ rest) ≡ ok (value, rest)) same
              (read_frame-frame max_length c (c.encode value) rest h fits
                ∙ rw k (unfold decode_payload in refl))
      ]

  -- The bytes that a frame takes off the stream: a header of four, and the payload that it announces.
  unfoldable pub IsTaken : ℕ → Codec A → Bytes → A → Bytes → Bytes × Bytes → Type ℓ
  IsTaken max_length c stream value rest (header, payload) =
      (stream ≡ header ++ (payload ++ rest))
      × (length header ≡ 4)
      × (length payload ≡ from_be_bytes 0 header)
      × (length payload ≤ max_length)
      × (c.decode payload ≡ some value)

  read_payload-IsTaken :
      (max_length : ℕ) (c : Codec A) (header stream : Bytes) (value : A) (rest : Bytes)
      → length header ≡ 4
      → from_be_bytes 0 header ≤ max_length
      → read_payload c (read_exact (from_be_bytes 0 header) stream) ≡ ok (value, rest)
      → (t : Bytes × Bytes) × IsTaken max_length c (header ++ stream) value rest t
  unfolding read_payload decode_payload IsTaken
  read_payload-IsTaken max_length c header stream value rest four small h =
      elim (Option-cases (read_exact (from_be_bytes 0 header) stream)) [
        | inl e ↦ absurd (ground (arith, e, h))
        | inr ((payload, left), e) ↦ elim (Option-cases (c.decode payload)) [
          | inl d ↦ absurd (ground (arith, e, d, h))
          | inr (v, d) ↦
              let parts = read_exact-length (from_be_bytes 0 header) stream payload left e in
              let same : v ≡ value = ground (arith, e, d, h) in
              let last : left ≡ rest = ground (arith, e, d, h) in
              (
                (header, payload),
                (
                  ap (λ t. header ++ t) (parts.1 ∙ ap (λ t. payload ++ t) last),
                  four,
                  parts.0,
                  ground (arith, parts.0, small),
                  d ∙ ap some same,
                ),
              )
        ]
      ]

  -- A frame that is read takes a header of four bytes and the payload that the header announces off
  -- the front of the stream, and no more; the payload is within the limit and is what the codec reads
  -- as the value.
  pub read_frame-IsTaken :
      (max_length : ℕ) (c : Codec A) (stream : Bytes) (value : A) (rest : Bytes)
      → read_frame max_length c stream ≡ ok (value, rest)
      → (t : Bytes × Bytes) × IsTaken max_length c stream value rest t
  unfolding read_frame read_sized
  read_frame-IsTaken max_length c stream value rest h = elim (Option-cases (read_exact 4 stream)) [
    | inl e ↦ absurd (ground (arith, e, h))
    | inr ((header, more), e) ↦ elim (Bool-cases (ltb max_length (from_be_bytes 0 header))) [
      | inl t ↦ absurd (ground (arith, e, t, h))
      | inr t ↦
          let parts = read_exact-length 4 stream header more e in
          subst (λ s. (t : Bytes × Bytes) × IsTaken max_length c s value rest t) (sym parts.1)
            (read_payload-IsTaken max_length c header more value rest parts.0 (ground (arith, t))
              (sym (rw (e, t) refl) ∙ h))
    ]
  ]
