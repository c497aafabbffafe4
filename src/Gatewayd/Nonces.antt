-- ===== src/Gatewayd/Nonces.antt =====
-- crates/misaka-gatewayd/src/lib.rs: how long a spent nonce stays in the set.
use misaka.Prelude.{
  ℕ, ◌+◌, ◌^◌, ◌≤◌, ◌<◌, ◌≡◌, refl, ap, ◌∙◌, Bytes, false, some, none, List, [], ◌∷◌, ◌==◌,
  if◌then◌else◌, ltb, arith, bytes_eq, All,
}
use misaka.Prelude.Map
use misaka.Prelude.Map.{lookup-insert, lookup-retain}
use misaka.Prelude.Result.{ok, is_ok}
use misaka.Core.Types.{SisterPublicKey, MembershipCertificate, GatewayAuth, PeerRecord}
use misaka.Core.Wire.{Wire}
use misaka.Gatewayd.{
  GatewayConfig, Gateway, Call, announces, lists, add_u64, live_nonces, spend_nonce, authenticate,
  upsert, publish, announce, peers, step, run,
}
use misaka.Gatewayd.Cases.{announce_cases, peers_cases, config-step}

-- The clock as the handler's authentication read it.
abbrev pub time_of : Call → ℕ
time_of (announces _ now _) = now
time_of (lists _ now _) = now

-- The nonce is in the set until `bound` at least.
pub record IsBlocked (nonce : Bytes) (bound : ℕ) (g : Gateway) : Type 0 where
  pub expiry : ℕ
  pub found : Map.lookup nonce g.nonces ≡ some expiry
  pub lasts : bound ≤ expiry

module _ (nonce : Bytes) (bound : ℕ) where
  spend_nonce-IsBlocked :
      (g : Gateway) (other : Bytes) (now : ℕ)
      → IsBlocked nonce bound g
      → now < bound
      → bound ≤ now + g.config.nonce_ttl_secs
      → now + g.config.nonce_ttl_secs < 2 ^ 64
      → IsBlocked nonce bound (spend_nonce g other now)
  unfolding spend_nonce live_nonces
  spend_nonce-IsBlocked g other now b early covers small = record {
    expiry = if other == nonce then add_u64 now g.config.nonce_ttl_secs else b.expiry;
    found = rw (lookup-insert other nonce) (ground (arith, kept));
    lasts = ground arith;
  }
    where
      kept : Map.lookup nonce (Map.retain (λ _ expiry. ltb now expiry) g.nonces) ≡ some b.expiry
      kept = lookup-retain _ nonce b.expiry g.nonces b.found (ground (arith, b.lasts))

module _ ⦃w : Wire⦄ (nonce : Bytes) (bound : ℕ) where
  authenticate-IsBlocked :
      (g : Gateway) (a : GatewayAuth) (body : Bytes) (m : MembershipCertificate) (now : ℕ)
      → IsBlocked nonce bound g
      → now < bound
      → bound ≤ now + g.config.nonce_ttl_secs
      → now + g.config.nonce_ttl_secs < 2 ^ 64
      → IsBlocked nonce bound (authenticate g a body m now).0
  unfolding authenticate
  authenticate-IsBlocked g a body m now b early covers small =
      ground (arith, spend_nonce-IsBlocked nonce bound g a.nonce now b early covers small)

  upsert-IsBlocked :
      (g : Gateway) (r : PeerRecord) (m : MembershipCertificate) (now : ℕ)
      → IsBlocked nonce bound g
      → IsBlocked nonce bound (upsert g r m now)
  unfolding upsert
  upsert-IsBlocked g r m now b = ground arith

  publish-IsBlocked :
      (g : Gateway) (r : PeerRecord) (m : MembershipCertificate) (now : ℕ)
      → IsBlocked nonce bound g
      → IsBlocked nonce bound (publish g r m now).0
  unfolding publish
  publish-IsBlocked g r m now b = ground (arith, upsert-IsBlocked g r m now b)

  step-IsBlocked :
      (g : Gateway) (c : Call)
      → IsBlocked nonce bound g
      → time_of c < bound
      → bound ≤ time_of c + g.config.nonce_ttl_secs
      → time_of c + g.config.nonce_ttl_secs < 2 ^ 64
      → IsBlocked nonce bound (step g c)
  unfolding step announce peers
  step-IsBlocked g (announces none now later) b early covers small = b
  step-IsBlocked g (announces (some q) now later) b early covers small =
      announce_cases (IsBlocked nonce bound) g now later q
        (authenticate-IsBlocked g q.auth _ q.membership now b early covers small)
        (λ _ _.
          publish-IsBlocked _ q.peer_record q.membership later
            (authenticate-IsBlocked g q.auth _ q.membership now b early covers small))
  step-IsBlocked g (lists none now later) b early covers small = b
  step-IsBlocked g (lists (some q) now later) b early covers small =
      peers_cases (IsBlocked nonce bound) g now later q
        (authenticate-IsBlocked g q.auth _ q.membership now b early covers small)

-- The handlers ran between the two readings of the clock.
abbrev pub Between : ℕ → ℕ → List Call → Type 0
Between first last = All (λ c. (first ≤ time_of c) × (time_of c ≤ last))

module _ ⦃w : Wire⦄ (nonce : Bytes) (first last : ℕ) where
  pub run-IsBlocked :
      (ttl : ℕ) (g : Gateway) (cs : List Call)
      → g.config.nonce_ttl_secs ≡ ttl
      → last < first + ttl
      → last + ttl < 2 ^ 64
      → Between first last cs
      → IsBlocked nonce (first + ttl) g
      → IsBlocked nonce (first + ttl) (run g cs)
  unfolding run
  run-IsBlocked ttl g [] same early small between b = b
  run-IsBlocked ttl g (c ∷ cs) same early small between b =
      run-IsBlocked ttl (step g c) cs
        (ap (λ (k : GatewayConfig). k.nonce_ttl_secs) (config-step g c) ∙ same) early small
        between.1
        (step-IsBlocked nonce (first + ttl) g c b (omega arith) (omega arith) (omega arith))

  pub config-run : (g : Gateway) (cs : List Call) → (run g cs).config ≡ g.config
  unfolding run
  config-run g [] = refl
  config-run g (c ∷ cs) = config-run (step g c) cs ∙ config-step g c

module _ ⦃w : Wire⦄ (g : Gateway) (a : GatewayAuth) (body : Bytes) (m : MembershipCertificate)
    (now : ℕ) where
  pub authenticate_spends :
      {key : SisterPublicKey}
      → (authenticate g a body m now).1 ≡ ok key
      → now + g.config.nonce_ttl_secs < 2 ^ 64
      → IsBlocked a.nonce (now + g.config.nonce_ttl_secs) (authenticate g a body m now).0
  unfolding authenticate spend_nonce
  authenticate_spends h small = record {
    expiry = add_u64 now g.config.nonce_ttl_secs;
    found = ground (
      arith,
      lookup-insert a.nonce a.nonce (add_u64 now g.config.nonce_ttl_secs) (live_nonces g now),
    );
    lasts = ground arith;
  }

  pub authenticate_blocked :
      (bound : ℕ)
      → IsBlocked a.nonce bound g
      → now < bound
      → is_ok (authenticate g a body m now).1 ≡ false
  unfolding authenticate live_nonces
  authenticate_blocked bound b early =
      ground (arith, lookup-retain (λ _ expiry. ltb now expiry) a.nonce b.expiry g.nonces b.found)
