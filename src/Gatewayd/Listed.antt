-- ===== src/Gatewayd/Listed.antt =====
-- crates/misaka-gatewayd/src/lib.rs: what keeps a Sister listed.
use misaka.Prelude.{
  ℕ, ◌+◌, ◌^◌, ◌≤◌, ◌<◌, ◌≡◌, ap, ◌∙◌, Bytes, some, none, List, [], ◌∷◌, ◌==◌, arith, nat_eq, inl,
  inr, Bool-cases, All,
}
use misaka.Prelude.Map
use misaka.Prelude.Map.{lookup-insert}
use misaka.Core.Types.{MembershipCertificate, GatewayAuth, PeerRecord}
use misaka.Core.Wire.{Wire}
use misaka.Core.Gateway.{announce_body_bytes}
use misaka.Gatewayd.{
  GatewayConfig, DirectoryEntry, is_stale, new_entry, Gateway, Call, announces, lists, authenticate,
  upsert, publish, announce, peers, step, run,
}
use misaka.Gatewayd.Cases.{
  announce_cases, peers_cases, config-authenticate, members-authenticate, config-step,
}

-- The clock as the directory write of the handler read it.
abbrev pub write_time : Call → ℕ
write_time (announces _ _ later) = later
write_time (lists _ _ later) = later

-- The Sister is listed until `bound` at least, with `sequence` or a higher one.
pub record IsListed (id sequence bound : ℕ) (g : Gateway) : Type 0 where
  pub entry : DirectoryEntry
  pub found : Map.lookup id g.members ≡ some entry
  pub filed : entry.peer_record.sister_id.number ≡ id
  pub newer : sequence ≤ entry.peer_record.sequence
  pub lasts : bound ≤ entry.expires_at

module _ ⦃w : Wire⦄ (id sequence bound : ℕ) where
  pub upsert-IsListed :
      (g : Gateway) (r : PeerRecord) (m : MembershipCertificate) (now : ℕ)
      → IsListed id sequence bound g
      → now < bound
      → bound ≤ now + g.config.record_ttl_secs
      → now + g.config.record_ttl_secs < 2 ^ 64
      → IsListed id sequence bound (upsert g r m now)
  unfolding upsert is_stale new_entry
  upsert-IsListed g r m now l early covers small = elim (Bool-cases (is_stale g r now)) [
    | inl stale ↦ rw (stale, upsert) l
    | inr fresh ↦
        rw (fresh, upsert)
          (elim (Bool-cases (r.sister_id.number == id)) [
            | inl same ↦ record {
              entry = new_entry g r m now;
              found =
                  ground
                    (arith, lookup-insert r.sister_id.number id (new_entry g r m now) g.members);
              filed = ground (arith, same);
              newer = ground (arith, l.newer);
              lasts = ground arith;
            }
            | inr other ↦ record {
              entry = l.entry;
              found =
                  ground
                    (arith, lookup-insert r.sister_id.number id (new_entry g r m now) g.members);
              filed = l.filed;
              newer = l.newer;
              lasts = l.lasts;
            }
          ])
  ]

  publish-IsListed :
      (g : Gateway) (r : PeerRecord) (m : MembershipCertificate) (now : ℕ)
      → IsListed id sequence bound g
      → now < bound
      → bound ≤ now + g.config.record_ttl_secs
      → now + g.config.record_ttl_secs < 2 ^ 64
      → IsListed id sequence bound (publish g r m now).0
  unfolding publish
  publish-IsListed g r m now l early covers small =
      ground (arith, upsert-IsListed g r m now l early covers small)

  authenticate-IsListed :
      (g : Gateway) (a : GatewayAuth) (body : Bytes) (m : MembershipCertificate) (now : ℕ)
      → IsListed id sequence bound g
      → IsListed id sequence bound (authenticate g a body m now).0
  authenticate-IsListed g a body m now l = record {
    entry = l.entry;
    found = rw (members-authenticate g a body m now) l.found;
    filed = l.filed;
    newer = l.newer;
    lasts = l.lasts;
  }

  step-IsListed :
      (g : Gateway) (c : Call)
      → IsListed id sequence bound g
      → write_time c < bound
      → bound ≤ write_time c + g.config.record_ttl_secs
      → write_time c + g.config.record_ttl_secs < 2 ^ 64
      → IsListed id sequence bound (step g c)
  unfolding step announce peers
  step-IsListed g (announces none now later) l early covers small = l
  step-IsListed g (announces (some q) now later) l early covers small =
      let payload = announce_body_bytes q.membership q.peer_record in
      let same = config-authenticate g q.auth payload q.membership now in
      announce_cases (IsListed id sequence bound) g now later q
        (authenticate-IsListed g q.auth payload q.membership now l)
        (λ _ _.
          publish-IsListed _ q.peer_record q.membership later
            (authenticate-IsListed g q.auth payload q.membership now l) early (rw same covers)
            (rw same small))
  step-IsListed g (lists none now later) l early covers small = l
  step-IsListed g (lists (some q) now later) l early covers small =
      peers_cases (IsListed id sequence bound) g now later q
        (authenticate-IsListed g q.auth _ q.membership now l)

  pub run-IsListed :
      (first last ttl : ℕ) (g : Gateway) (cs : List Call)
      → g.config.record_ttl_secs ≡ ttl
      → bound ≡ first + ttl
      → last < bound
      → last + ttl < 2 ^ 64
      → All (λ c. (first ≤ write_time c) × (write_time c ≤ last)) cs
      → IsListed id sequence bound g
      → IsListed id sequence bound (run g cs)
  unfolding run
  run-IsListed first last ttl g [] same is_bound early small between l = l
  run-IsListed first last ttl g (c ∷ cs) same is_bound early small between l =
      run-IsListed first last ttl (step g c) cs
        (ap (λ (k : GatewayConfig). k.record_ttl_secs) (config-step g c) ∙ same) is_bound early
        small between.1 (step-IsListed g c l (omega arith) (omega arith) (omega arith))
