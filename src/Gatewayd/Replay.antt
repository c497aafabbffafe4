-- ===== src/Gatewayd/Replay.antt =====
-- crates/misaka-gatewayd/src/lib.rs: an accepted request is not accepted again.
use misaka.Prelude.{
  ℕ, ◌+◌, ◌*◌, ◌^◌, ◌≤◌, ◌<◌, ◌≡◌, sym, ap, subst, ◌∙◌, ◌⊎◌, Bytes, false, List, ltb, arith,
  bytes_eq, inl, inr, Bool-cases,
}
use misaka.Prelude.Result.{ok, is_ok, Result-cases}
use misaka.Core.Types.{SisterPublicKey, MembershipCertificate, GatewayAuth}
use misaka.Core.Wire.{Wire}
use misaka.Gatewayd.{GatewayConfig, Gateway, Call, authenticate, run}
use misaka.Gatewayd.Cases.{authenticate-Accepts, config-authenticate}
use misaka.Gatewayd.Nonces.{
  Between, IsBlocked, config-run, run-IsBlocked, authenticate_spends, authenticate_blocked,
}

module _ ⦃w : Wire⦄ (g : Gateway) (a a' : GatewayAuth) (body body' : Bytes)
    (m m' : MembershipCertificate) (cs : List Call) (first last : ℕ) {key : SisterPublicKey}
    (passed : (authenticate g a body m first).1 ≡ ok key) where
  -- A timestamp that was fresh once is too old after the nonce's time to live.
  stale_later :
      2 * g.config.auth_window_secs < g.config.nonce_ttl_secs
      → first + g.config.nonce_ttl_secs ≤ last
      → a'.timestamp ≤ a.timestamp
      → (h : Gateway) → h.config ≡ g.config
      → is_ok (authenticate h a' body' m' last).1 ≡ false
  stale_later wide late older h same = elim (Result-cases (authenticate h a' body' m' last).1) [
    | inr (e, p) ↦ rw p
    | inl (k, p) ↦ absurd (
        omega (
          arith,
          older,
          authenticate-Accepts g a body m first passed,
          authenticate-Accepts h a' body' m' last p,
          ap (λ (c : GatewayConfig). c.auth_window_secs) same,
        ))
  ]

  -- Once a request is authenticated, no request under the same nonce is, whatever its envelope, body
  -- and certificate are and whatever calls come in between: for as long as the nonce lives from the
  -- first reading of the clock on, and for ever if its timestamp is no later than the first one's.
  -- The clock is at or after the first reading, each call's authentication reads it between the two
  -- readings, the nonces live longer than twice the window, and the u64 additions do not wrap.
  pub replay_refused :
      a'.nonce ≡ a.nonce
      → (last < first + g.config.nonce_ttl_secs) ⊎ (a'.timestamp ≤ a.timestamp)
      → 2 * g.config.auth_window_secs < g.config.nonce_ttl_secs
      → last + g.config.nonce_ttl_secs < 2 ^ 64
      → first ≤ last
      → Between first last cs
      → is_ok (authenticate (run (authenticate g a body m first).0 cs) a' body' m' last).1 ≡ false
  replay_refused same again wide small ordered between =
      elim (Bool-cases (ltb last (first + g.config.nonce_ttl_secs))) [
        | inl early ↦
            authenticate_blocked (run (authenticate g a body m first).0 cs) a' body' m' last
              (first + g.config.nonce_ttl_secs)
              (subst
                (λ nonce.
                  IsBlocked nonce (first + g.config.nonce_ttl_secs)
                    (run (authenticate g a body m first).0 cs))
                (sym same)
                (run-IsBlocked a.nonce first last g.config.nonce_ttl_secs
                  (authenticate g a body m first).0 cs
                  (ap (λ (c : GatewayConfig). c.nonce_ttl_secs)
                    (config-authenticate g a body m first))
                  (ground arith) small between
                  (authenticate_spends g a body m first passed (omega arith))))
              (ground arith)
        | inr late ↦
            let older : a'.timestamp ≤ a.timestamp = elim again [
              | inl soon ↦ absurd (ground (arith, soon, late))
              | inr o ↦ o
            ] in
            stale_later wide (ground arith) older (run (authenticate g a body m first).0 cs) (
              config-run a.nonce first last (authenticate g a body m first).0 cs
              ∙ config-authenticate g a body m first)
      ]
