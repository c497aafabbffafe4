-- ===== src/Core/Tests.antt =====
-- crates/misaka-core: the theorems on the contracts at concrete keys, requests and codes.
use misaka.Prelude.{
  ℕ, ◌+◌, ◌≤◌, ◌<◌, ◌≡◌, refl, ◌↔◌, Bytes, Text, Bool, true, Option, some, none, List, [], ◌∷◌,
  ◌++◌, codes, leb, is_none_or, All, arith, ℕ_discrete, Bytes-discrete,
}
use misaka.Prelude.Result.{ok}
use misaka.Core.Types.{
  GatewayAuth, EnrollmentBundle, accepted, HumanKeyPair, HumanIdentity, Role, Permission,
}
use misaka.Core.HumanMembershipCertificate
use misaka.Core.CommandAuthorization
use misaka.Core.PeerRecord
use misaka.Core.TransportBinding
use misaka.Core.Role
use misaka.Core.EnrollmentInvite
use misaka.Core.EnrollmentResponse.{accept, validate_received}
use misaka.Core.Gateway.{sign, verify_request}
use misaka.Core.Gateway.Accepts.{Accepts, verify_request_iff}
use misaka.Core.Contracts.{PeerRecord-signed, authorization_verifies_iff}
use misaka.Core.Base64.{base64url_encode, base64url_decode}
use misaka.Core.Base64.Roundtrip.{IsByte, decode-encode}
use misaka.Core.Base64.Canonical.{encode-decode}
use misaka.Core.InviteCode.{encode_code, decode_code, invite_code_prefix}
use misaka.Core.InviteCode.Paste.{decode_code-encode_code}
use misaka.Core.Enrollment.{validate_received_iff, IsEnrolled}
use misaka.Core.Keys.{human_public_key, authority_public_key}
use misaka.Core.Wire.{CodesSoundly}
use misaka.Fixtures.{
  toy, toy-SignsSoundly, reading_toy, network, authority, authority_key, sister_key, sister_public,
  certificate, locator, endpoint, invite,
}

abbrev signed_auth : GatewayAuth
signed_auth = sign network 42 500 (1 ∷ []) (7 ∷ []) sister_key

verify_request_iff_example :
    (verify_request signed_auth (7 ∷ []) certificate authority 510 300 ≡ ok sister_public) ↔ (
      Accepts signed_auth (7 ∷ []) certificate authority 510 300
      × (sister_public ≡ certificate.sister_public_key))
verify_request_iff_example =
    verify_request_iff signed_auth (7 ∷ []) certificate authority 510 300 sister_public

own_authority : authority.authority_public_key ≡ authority_public_key authority_key
unfolding authority_public_key
own_authority = refl

PeerRecord-signed_example :
    PeerRecord.verify (
      PeerRecord.issue network 42
        (105 ∷ [])
        (TransportBinding.sign network 42 endpoint 1 sister_key)
        500
        sister_key)
    ≡ true
PeerRecord-signed_example =
    PeerRecord-signed toy-SignsSoundly network 42 endpoint 1 (105 ∷ []) 500 sister_key

decode-encode_example : base64url_decode (base64url_encode (77 ∷ 97 ∷ [])) ≡ some (77 ∷ 97 ∷ [])
decode-encode_example =
    decode-encode (77 ∷ 97 ∷ []) (unfold IsByte in (omega arith, (omega arith, tt)))

-- The RFC 4648 vector for "Ma".
ma_decodes : base64url_decode (codes "TWE") ≡ some (77 ∷ 97 ∷ [])
unfolding base64url_decode misaka.Core.Base64.finish misaka.Core.Base64.decode_loop
    misaka.Core.Base64.absorb misaka.Core.Base64.digit misaka.Prelude.length ℕ_discrete
ma_decodes = refl

encode-decode_example : base64url_encode (77 ∷ 97 ∷ []) ≡ codes "TWE"
encode-decode_example = encode-decode (codes "TWE") (77 ∷ 97 ∷ []) ma_decodes

abbrev human_key : HumanKeyPair
human_key = record { secret = 6 ∷ [] }

abbrev owner_identity : HumanIdentity
owner_identity = record {
  id = record { uuid = 8 };
  display_name = codes "owner";
  public_key = record { key_bytes = 6 ∷ [] };
}

owner_key : owner_identity.public_key ≡ human_public_key human_key
unfolding human_public_key
owner_key = refl

authorization_verifies_iff_example :
    (CommandAuthorization.verify
        (CommandAuthorization.issue network owner_identity
          (HumanMembershipCertificate.issue authority authority_key owner_identity Role.operator 100
            none 3)
          Role.operator
          Permission.job_submit
          none
          []
          500
          800
          (2 ∷ [])
          human_key)
        authority
        600
      ≡ true)
    ↔ ((network ≡ authority.network_id)
        × (Role.allows Role.operator Permission.job_submit ≡ true)
        × (500 ≤ 600)
        × (600 ≤ 800)
        × (100 ≤ 600)
        × (is_none_or none (λ t. leb 600 t) ≡ true))
authorization_verifies_iff_example =
    authorization_verifies_iff toy-SignsSoundly authority authority_key human_key owner_identity
      network Role.operator Permission.job_submit none [] 500 800 (2 ∷ []) 100 none 3 600
      own_authority owner_key

invite_reads_back : CodesSoundly reading_toy invite
unfolding EnrollmentInvite.issue
invite_reads_back = record { writes_bytes = (omega arith, (omega arith, tt)); reads_back = refl }

abbrev invite_code : Text
invite_code = invite_code_prefix ++ base64url_encode (250 ∷ 4 ∷ [])

code_encoded : encode_code ⦃w = reading_toy⦄ invite ≡ ok invite_code
unfolding encode_code EnrollmentInvite.issue
code_encoded = refl

decode_code-encode_code_example :
    decode_code ⦃w = reading_toy⦄ ([] ++ (invite_code ++ codes "\n")) ≡ ok invite
decode_code-encode_code_example =
    decode_code-encode_code ⦃w = reading_toy⦄ invite invite_code [] (codes "\n") invite_reads_back
      code_encoded tt
      (unfold misaka.Prelude.IsWhitespace misaka.Prelude.is_whitespace ℕ_discrete in (refl, tt))

abbrev installed : EnrollmentBundle
installed = record {
  authority = authority;
  membership = certificate;
  bootstrap_records = locator ∷ [];
}

validate_received_iff_example :
    (validate_received
        (accept authority certificate (locator ∷ []))
        invite
        network
        (record { number = 42 })
        sister_public
        500
      ≡ ok installed)
    ↔ (((accept authority certificate (locator ∷ [])).protocol_version ≡ 1)
        × ((accept authority certificate (locator ∷ [])).outcome
            ≡ accepted authority certificate (locator ∷ []))
        × IsEnrolled invite network (record { number = 42 }) sister_public 500 installed)
validate_received_iff_example =
    validate_received_iff (accept authority certificate (locator ∷ [])) invite network
      (record { number = 42 }) sister_public 500 installed
