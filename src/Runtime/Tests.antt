-- ===== src/Runtime/Tests.antt =====
-- crates/misaka-runtime: the theorems on the services at concrete states.
use misaka.Prelude.{
  ℕ, ◌+◌, ◌≤◌, ◌≡◌, refl, ◌∙◌, ◌↔◌, inl, inr, Bytes, Text, Bool, true, Option, some, none, List, [],
  ◌∷◌, map, codes, All, Ascends, IsIncreasing, u64_max, length, arith, ℕ_discrete, Bytes-discrete,
  to_string,
}
use misaka.Prelude.Result.{ok, err}
use misaka.Core.Types.{EnrollmentRequest, accepted}
use misaka.Core.EnrollmentInvite
use misaka.Core.EnrollmentChallenge
use misaka.Core.EnrollmentResponse.{validate_received}
use misaka.Core.MembershipCertificate
use misaka.Core.Enrollment.{IsTrusted}
use misaka.Core.Keys.{sister_public_key, authority_public_key}
use misaka.Runtime.MembershipSerialStore.{
  IoError, whole, torn, read, or_zero, Event, allocates, restarts, restart, serials,
  saturating_succ, allocate,
}
use misaka.Runtime.MembershipSerialStore.Fresh.{IsSafe, AllSafe, serials-Ascends}
use misaka.Runtime.Enrollment.{
  EnrollmentServer, EnrollmentFailure, expired, evaluate, bootstrap, issue_membership, serve_proof,
}
use misaka.Runtime.Enrollment.Cases.{
  IsRedeemable, challenge_of, evaluate_iff, IsIssued, serve_proof-IsIssued,
}
use misaka.Runtime.Redeem.{Surroundings, exchange}
use misaka.Runtime.Redeem.Exchange.{
  request_of, exchange-refused, exchange-issued, exchange-installed,
}
use misaka.Fixtures.{
  contracts, toy, toy-SignsSoundly, network, authority, authority_key, sister_key, locator,
  endpoint, invite,
}

-- A write that fails and empties the file, then a restart.
abbrev life : List Event
life = allocates whole ∷ allocates (torn (some [])) ∷ restarts ∷ allocates whole ∷ []

new_directory : read none ≡ ok none
unfolding read
new_directory = refl

life_safe : AllSafe (restart none) life
unfolding AllSafe IsSafe
life_safe = (
  tt,
  (
    λ s p. inr (
        inr (
          IoError.invalid_data,
          (unfold read misaka.Prelude.parse_u64 misaka.Prelude.trim misaka.Prelude.trim_end
                misaka.Prelude.trim_start in
              refl),
        )),
    (tt, (tt, tt)),
  ),
)

serials-Ascends_example : Ascends (or_zero none) (serials (restart none) life)
serials-Ascends_example =
    serials-Ascends none none life new_directory (unfold or_zero in omega arith) life_safe

abbrev server : EnrollmentServer
server = record {
  network_id = network;
  authority = authority;
  authority_key = authority_key;
  sister_id = 42;
  iroh_endpoint_id = endpoint;
  locator = locator;
  extra_bootstrap = [];
  serials = record { file = none; state = 0 };
}

abbrev at : Surroundings
at = record {
  evaluated_at = 500;
  issued_at = 501;
  authority_nonce = 1 ∷ [];
  recipient_nonce = 2 ∷ [];
  write = whole;
}

redeemable : IsRedeemable server 500 invite
unfolding contracts
redeemable = record {
  verified = refl;
  own_network = refl;
  own_authority = refl;
  own_sister = refl;
  own_endpoint = refl;
}

abbrev request : EnrollmentRequest
request = request_of at invite (record { number = 77 }) sister_key

evaluate_iff_example :
    (evaluate server 500 (1 ∷ []) request ≡ ok (challenge_of server (1 ∷ []) request)) ↔ (
      IsRedeemable server 500 request.invite
      × (challenge_of server (1 ∷ []) request ≡ challenge_of server (1 ∷ []) request))
evaluate_iff_example =
    evaluate_iff server 500 (1 ∷ []) request (challenge_of server (1 ∷ []) request)

accepted_proof :
    (serve_proof server 501 whole request
      (challenge_of server (1 ∷ []) request)
      (EnrollmentChallenge.solve (challenge_of server (1 ∷ []) request) sister_key)).0.outcome
    ≡ (issue_membership server 501 request 1).outcome
unfolding contracts serve_proof misaka.Runtime.Enrollment.serve_allocated allocate
    EnrollmentChallenge.solve EnrollmentChallenge.verify EnrollmentChallenge.signing_bytes
    EnrollmentChallenge.new EnrollmentChallenge.new_request saturating_succ
    misaka.Core.Keys.sister_sign
accepted_proof = refl

late : evaluate server 2000 (1 ∷ []) request ≡ err expired
unfolding contracts evaluate EnrollmentInvite.is_expired EnrollmentChallenge.new_request
late = refl

abbrev late_at : Surroundings
late_at = record at { evaluated_at = 2000 }

exchange-refused_example :
    exchange server late_at invite (record { number = 77 }) sister_key
    ≡ (err (EnrollmentFailure.rejected expired), server)
exchange-refused_example =
    exchange-refused server late_at invite (record { number = 77 }) sister_key expired late

issued_outcome :
    (issue_membership server 501 request 1).outcome
    ≡ accepted authority
        (MembershipCertificate.issue authority authority_key request.sister_public_key
          request.sister_id.number 501 none 1)
        (bootstrap server)
unfolding issue_membership misaka.Core.EnrollmentResponse.accept
issued_outcome = refl

serve_proof-IsIssued_example :
    IsIssued server 501 whole request
      (challenge_of server (1 ∷ []) request)
      (EnrollmentChallenge.solve (challenge_of server (1 ∷ []) request) sister_key)
      authority
      (MembershipCertificate.issue authority authority_key request.sister_public_key
        request.sister_id.number 501 none 1)
      (bootstrap server)
serve_proof-IsIssued_example =
    serve_proof-IsIssued server 501 whole request (challenge_of server (1 ∷ []) request)
      (EnrollmentChallenge.solve (challenge_of server (1 ∷ []) request) sister_key) authority
      (MembershipCertificate.issue authority authority_key request.sister_public_key
        request.sister_id.number 501 none 1)
      (bootstrap server) (accepted_proof ∙ issued_outcome)

own_key : server.authority.authority_public_key ≡ authority_public_key server.authority_key
unfolding authority_public_key
own_key = refl

trusted : IsTrusted network locator
unfolding contracts IsTrusted
trusted = (refl, refl)

exchanged :
    (exchange server at invite (record { number = 77 }) sister_key).0
    ≡ ok (issue_membership server 501 request 1)
unfolding saturating_succ
exchanged =
    exchange-issued toy-SignsSoundly server at invite (record { number = 77 }) sister_key redeemable
      refl

exchange-installed_example :
    validate_received
      (issue_membership server 501 request 1)
      invite
      network
      (record { number = 77 })
      (sister_public_key sister_key)
      600
    ≡ ok (record {
      authority = authority;
      membership =
          MembershipCertificate.issue authority authority_key
            (sister_public_key sister_key)
            77
            501
            none
            (saturating_succ 0);
      bootstrap_records = bootstrap server;
    })
exchange-installed_example =
    exchange-installed toy-SignsSoundly server at invite (record { number = 77 }) sister_key
      (issue_membership server 501 request 1) 600 own_key redeemable refl trusted tt (omega arith)
      exchanged
