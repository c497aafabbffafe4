-- ===== src/Fixtures.antt =====
-- Concrete data for the tests: a toy signature scheme and encoding, and the identities of the
-- fixtures in the repository's own unit tests.
use misaka.Prelude.{
  ℕ, Bytes, true, refl, Option, none, some, [], ◌∷◌, ◌++◌, ◌==◌, arith, bytes_eq, Bytes-discrete,
  ℕ_discrete, codes,
}
use misaka.Core.Types.{
  NetworkId, SisterKeyPair, SisterPublicKey, AuthorityKeyPair, IrohEndpointId, NetworkAuthority,
  MembershipCertificate, MembershipCertificateUnsigned, EnrollmentInvite, TransportBinding,
  PeerRecord, HumanKeyPair, HumanIdentity, HumanMembershipCertificate, CommandAuthorization, Role,
  Permission, Principal, Role-discrete, HumanIdentity-discrete, HumanId-discrete,
  HumanPublicKey-discrete, Permission-discrete, NetworkId-discrete, SisterId-discrete,
  SisterPublicKey-discrete,
}
use misaka.Core.MembershipCertificate
use misaka.Core.TransportBinding
use misaka.Core.HumanMembershipCertificate
use misaka.Core.CommandAuthorization
use misaka.Core.Role
use misaka.Core.PeerRecord
use misaka.Core.EnrollmentInvite
use misaka.Core.Keys.{sister_verify, sister_public_key, authority_verify, human_verify}
use misaka.Core.Wire.{Wire, SignsSoundly}

abbrev pub option_bytes : Option ℕ → Bytes
option_bytes none = 0 ∷ 0 ∷ []
option_bytes (some n) = 1 ∷ n ∷ []

abbrev pub membership_encoding : MembershipCertificateUnsigned → Bytes
membership_encoding c =
    c.network_id.uuid
    ∷ c.sister_id.number
    ∷ c.issued_at
    ∷ c.serial
    ∷ (option_bytes c.expires_at ++ c.sister_public_key.key_bytes)

-- A secret key is its own public key, and a signature is the key followed by the message.
instance abbrev pub toy : Wire
toy = record {
  is_valid_key = λ _. true;
  ed25519_verify = λ key message signature. signature == key ++ message;
  ed25519_sign = λ secret message. secret ++ message;
  verifying_key = λ secret. secret;
  sha256 = λ bytes. bytes;
  membership_bytes = membership_encoding;
  human_membership_bytes =
      λ c. c.network_id.uuid ∷ c.human.id.uuid ∷ c.issued_at ∷ c.serial ∷ option_bytes c.expires_at;
  revocation_bytes = λ c. c.network_id.uuid ∷ c.membership_serial ∷ c.revoked_at ∷ c.reason;
  binding_bytes =
      λ c. c.network_id.uuid ∷ c.sister_id.number ∷ c.sequence ∷ c.iroh_endpoint_id.endpoint_bytes;
  peer_record_bytes =
      λ c. c.network_id.uuid ∷ c.sister_id.number ∷ c.sequence ∷ c.updated_at ∷ c.endpoint_addr;
  network_invite_bytes = λ c. c.network_id.uuid ∷ c.issued_at ∷ c.expires_at ∷ c.invite_id;
  command_bytes = λ c. c.network_id.uuid ∷ c.issued_at ∷ c.expires_at ∷ c.nonce;
  challenge_bytes = λ c. c.network_id.uuid ∷ c.nonce;
  gateway_auth_bytes =
      λ c. c.network_id.uuid ∷ c.sister_id.number ∷ c.timestamp ∷ (c.nonce ++ c.body_digest);
  announce_bytes = λ c. c.peer_record.sequence ∷ c.peer_record.sister_signature.signature_bytes;
  enrollment_invite_bytes = λ c. c.network_id.uuid ∷ c.issued_at ∷ c.expires_at ∷ c.invite_nonce;
  client_hello_bytes = λ c. c.network_id.uuid ∷ c.sister_id.number ∷ c.nonce;
  server_hello_bytes = λ c. c.network_id.uuid ∷ c.sister_id.number ∷ (c.client_nonce ++ c.nonce);
  invite_code_bytes = λ c. 250 ∷ c.invite_nonce;
  read_invite = λ bytes. none;
  enrollment_challenge_bytes =
      λ c. c.network_id.uuid ∷ c.sister_id.number ∷ (c.authority_nonce ++ c.recipient_nonce);
}

pub toy-SignsSoundly : SignsSoundly toy
toy-SignsSoundly = record {
  key_valid = λ secret. refl;
  signature_verifies = λ secret message. ground arith;
}

abbrev pub network : NetworkId
network = record { uuid = 1 }

abbrev pub authority_key : AuthorityKeyPair
authority_key = record { secret = 5 ∷ [] }

abbrev pub authority : NetworkAuthority
authority = record { network_id = network; authority_public_key = record { key_bytes = 5 ∷ [] } }

abbrev pub sister_key : SisterKeyPair
sister_key = record { secret = 9 ∷ [] }

abbrev pub sister_public : SisterPublicKey
sister_public = record { key_bytes = 9 ∷ [] }

abbrev pub endpoint : IrohEndpointId
endpoint = record { endpoint_bytes = 3 ∷ [] }

-- Sister 42, certified from 100 to 1000 with serial 7, and her locator of sequence 1.
abbrev pub certificate : MembershipCertificate
certificate = MembershipCertificate.issue authority authority_key sister_public 42 100 (some 1000) 7

abbrev pub binding : TransportBinding
binding = TransportBinding.sign network 42 endpoint 1 sister_key

abbrev pub locator : PeerRecord
locator = PeerRecord.issue network 42 (105 ∷ []) binding 500 sister_key

-- An invite of the network from 100 to 1000, with the locator of Sister 42.
abbrev pub invite : EnrollmentInvite
invite = EnrollmentInvite.issue authority authority_key 100 1000 (4 ∷ []) locator

-- The toy encoding, where the bytes of a code are those of the invite.
abbrev pub reading_toy : Wire
reading_toy = record toy { read_invite = λ bytes. some invite }

abbrev pub human_key : HumanKeyPair
human_key = record { secret = 6 ∷ [] }

abbrev pub operator_identity : HumanIdentity
operator_identity = record {
  id = record { uuid = 8 };
  display_name = codes "operator";
  public_key = record { key_bytes = 6 ∷ [] };
}

abbrev pub operator_membership : HumanMembershipCertificate
operator_membership =
    HumanMembershipCertificate.issue authority authority_key operator_identity Role.operator 100
      none 3

-- The operator's leave for Sister 42 to run a job, from 500 to 800.
abbrev pub authorization : CommandAuthorization
authorization =
    CommandAuthorization.issue network operator_identity operator_membership Role.operator
      Permission.job_submit (some (Principal.sister (record { number = 42 })))
      (codes "command=ls" ∷ []) 500 800 (2 ∷ []) human_key

-- What a run of the contracts on these fixtures computes with.
unfoldable pub contracts : Unit {0}
unfolding MembershipCertificate.issue MembershipCertificate.signing_bytes
    MembershipCertificate.verify MembershipCertificate.is_valid_at TransportBinding.sign
    TransportBinding.signing_bytes TransportBinding.verify PeerRecord.issue PeerRecord.signing_bytes
    PeerRecord.verify EnrollmentInvite.issue EnrollmentInvite.signing_bytes EnrollmentInvite.verify
    sister_verify sister_public_key authority_verify NetworkId-discrete SisterId-discrete
    SisterPublicKey-discrete Bytes-discrete ℕ_discrete
contracts = tt

-- What a run on the authorization computes with.
unfoldable pub grants : Unit {0}
unfolding contracts HumanMembershipCertificate.issue HumanMembershipCertificate.signing_bytes
    HumanMembershipCertificate.verify CommandAuthorization.issue CommandAuthorization.signing_bytes
    CommandAuthorization.verify Role.allows human_verify Role-discrete HumanIdentity-discrete
    HumanId-discrete HumanPublicKey-discrete Permission-discrete
grants = tt
