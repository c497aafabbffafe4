-- ===== src/Core/InviteCode.antt =====
-- crates/misaka-core/src/enrollment.rs: InviteCodeError, encode_code and decode_code. A code is the
-- list of its characters' code points.
pub mod Paste
use misaka.Prelude.{
  ℕ, ◌≡◌, refl, sym, ap, ◌∙◌, Bytes, Text, Bool, true, false, ◌||◌, ◌&&◌, Option, none, some, List,
  [], ◌∷◌, ◌++◌, ◌==◌, nat_eq, ℕ_discrete, leb, if◌then◌else◌, codes, trim, strip_prefix,
}
use misaka.Prelude.Result.{Result, ok, err, ◌>>=◌, ok_or}
use misaka.Core.Types.{EnrollmentInvite}
use misaka.Core.Base64.{base64url_encode, base64url_decode}
use misaka.Core.Base64.Roundtrip.{decode-encode, IsByte}
use misaka.Core.Wire.{Wire, CodesSoundly}

pub data InviteCodeError : Type 0 where
  unsupported_prefix invalid_encoding invalid_payload : InviteCodeError

-- INVITE_CODE_PREFIX
abbrev pub invite_code_prefix : Text
invite_code_prefix = codes "misaka1_"

module _ ⦃w : Wire⦄ where
  unfoldable pub encode_code : EnrollmentInvite → Result InviteCodeError Text
  encode_code invite = ok (invite_code_prefix ++ base64url_encode (w.invite_code_bytes invite))

  unfoldable pub decode_code : Text → Result InviteCodeError EnrollmentInvite
  unfolding trim
  decode_code code = do
    body ← ok_or (strip_prefix invite_code_prefix (trim code)) unsupported_prefix
    payload ← ok_or (base64url_decode body) invalid_encoding
    ok_or (w.read_invite payload) invalid_payload
