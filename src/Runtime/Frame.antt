-- ===== src/Runtime/Frame.antt =====
-- The length-prefixed frames of crates/misaka-runtime/src: authenticated_session.rs, enrollment.rs and
-- runtime.rs each write `(len as u32).to_be_bytes()` and the payload, and read them back under a limit.
-- A stream is the bytes that have arrived and are still unread; it ends where they do.
pub mod Read
use misaka.Prelude.{
  ℕ, zero, suc, ◌+◌, ◌*◌, ◌/◌, ◌%◌, Bytes, Option, none, some, [], ◌∷◌, ◌++◌, length, ltb,
  if◌then◌else◌,
}
use misaka.Prelude.Result.{Result, ok, err}

pub data FrameError : Type 0 where
  io codec too_large : FrameError

-- bincode::serialize and bincode::deserialize at one type, `none` for an error
pub record Codec {ℓ} (A : Type ℓ) : Type ℓ where
  pub encode : A → Bytes
  pub decode : Bytes → Option A

-- (n as u32).to_be_bytes()
unfoldable pub to_be_bytes : ℕ → Bytes
to_be_bytes n = n / 16777216 % 256 ∷ n / 65536 % 256 ∷ n / 256 % 256 ∷ n % 256 ∷ []

-- u32::from_be_bytes, with the number of the bytes before
unfoldable pub from_be_bytes : ℕ → Bytes → ℕ
from_be_bytes n [] = n
from_be_bytes n (b ∷ bytes) = from_be_bytes (n * 256 + b) bytes

unfoldable pub put_back : ℕ → Option (Bytes × Bytes) → Option (Bytes × Bytes)
put_back b none = none
put_back b (some (bytes, rest)) = some (b ∷ bytes, rest)

-- AsyncReadExt::read_exact: an error when the stream ends first
unfoldable pub read_exact : ℕ → Bytes → Option (Bytes × Bytes)
unfolding put_back
read_exact zero stream = some ([], stream)
read_exact (suc n) [] = none
read_exact (suc n) (b ∷ stream) = put_back b (read_exact n stream)

unfoldable pub frame : Bytes → Bytes
unfolding to_be_bytes
frame payload = to_be_bytes (length payload) ++ payload

module _ {ℓ} {A : Type ℓ} where
  -- What `write_frame` sends.
  unfoldable pub write_frame : ℕ → Codec A → A → Result FrameError Bytes
  unfolding frame
  write_frame max_length c value =
      let payload = c.encode value in
      if ltb max_length (length payload) then err too_large else ok (frame payload)

  -- write_bincode_frame, which has no limit
  unfoldable pub write_bincode_frame : Codec A → A → Bytes
  unfolding frame
  write_bincode_frame c value = frame (c.encode value)

  unfoldable pub decode_payload : Option A → Bytes → Result FrameError (A × Bytes)
  decode_payload none rest = err codec
  decode_payload (some value) rest = ok (value, rest)

  unfoldable pub read_payload : Codec A → Option (Bytes × Bytes) → Result FrameError (A × Bytes)
  unfolding decode_payload
  read_payload c none = err io
  read_payload c (some (payload, rest)) = decode_payload (c.decode payload) rest

  unfoldable pub read_sized : ℕ → Codec A → Option (Bytes × Bytes) → Result FrameError (A × Bytes)
  unfolding read_payload from_be_bytes
  read_sized max_length c none = err io
  read_sized max_length c (some (header, stream)) =
      let size = from_be_bytes 0 header in
      if ltb max_length size then err too_large else read_payload c (read_exact size stream)

  -- The value of the next frame, and what is left of the stream.
  unfoldable pub read_frame : ℕ → Codec A → Bytes → Result FrameError (A × Bytes)
  unfolding read_sized
  read_frame max_length c stream = read_sized max_length c (read_exact 4 stream)
