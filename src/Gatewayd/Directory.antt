-- ===== src/Gatewayd/Directory.antt =====
-- crates/misaka-gatewayd/src/lib.rs: what the directory holds.
use misaka.Prelude.{
  ℕ, ◌≡◌, refl, sym, ◌∙◌, ap, subst, Bytes, true, none, some, List, [], ◌∷◌, arith, inl, inr, All,
  Option, Bool-cases, ltb, nat_eq,
}
use misaka.Prelude.Map
use misaka.Prelude.Map.{Map, AllEntries, AllEntries-insert, AllEntries-lookup}
use misaka.Core.Types.{NetworkAuthority, MembershipCertificate, PeerRecord, GatewayAuth}
use misaka.Core.MembershipCertificate
use misaka.Core.PeerRecord
use misaka.Core.Wire.{Wire}
use misaka.Core.Gateway.{record_matches_membership}
use misaka.Gatewayd.{
  Gateway, GatewayConfig, DirectoryEntry, Call, announces, lists, new, authenticate, upsert,
  publish, announce, peers, live_of, live_records, step, run, new_entry, entry_for, live_entry,
}
use misaka.Gatewayd.Cases.{
  announce_cases, peers_cases, authenticate-Accepts, members-authenticate, config-step,
}

-- A locator of this network, signed by the key that a certificate of the authority vouches for.
pub record IsVouched ⦃w : Wire⦄ (authority : NetworkAuthority) (r : PeerRecord) (serial : ℕ)
    : Type 0 where
  pub certificate : MembershipCertificate
  pub certified : MembershipCertificate.verify certificate authority ≡ true
  pub serial_of : certificate.serial ≡ serial
  pub network : r.network_id ≡ authority.network_id
  pub same_sister : r.sister_id ≡ certificate.sister_id
  pub same_key : r.sister_public_key ≡ certificate.sister_public_key
  pub self_signed : PeerRecord.verify r ≡ true

-- An entry of the directory, under the number of its Sister.
pub record IsFiled ⦃w : Wire⦄ (authority : NetworkAuthority) (id : ℕ) (entry : DirectoryEntry)
    : Type 0 where
  pub vouched : IsVouched authority entry.peer_record entry.membership_serial
  pub filed : entry.peer_record.sister_id.number ≡ id

module _ ⦃w : Wire⦄ where
  abbrev pub IsTrusted : NetworkAuthority → Gateway → Type 0
  IsTrusted authority g = AllEntries (IsFiled authority) g.members

  authenticate-IsTrusted :
      (authority : NetworkAuthority) (g : Gateway) (a : GatewayAuth) (body : Bytes)
      (m : MembershipCertificate) (now : ℕ)
      → IsTrusted authority g
      → IsTrusted authority (authenticate g a body m now).0
  authenticate-IsTrusted authority g a body m now h = rw (members-authenticate g a body m now) h

  upsert-IsTrusted :
      (authority : NetworkAuthority) (g : Gateway) (r : PeerRecord) (m : MembershipCertificate)
      (now : ℕ)
      → IsVouched authority r m.serial
      → IsTrusted authority g
      → IsTrusted authority (upsert g r m now)
  unfolding upsert
  upsert-IsTrusted authority g r m now v h = ground (
    arith,
    AllEntries-insert (IsFiled authority) r.sister_id.number (new_entry g r m now) g.members
        (record { vouched = v; filed = refl }) h,
  )

  -- The two checks of `announce`, after the membership is known to be certified.
  IsVouched-of_checks :
      (authority : NetworkAuthority) (r : PeerRecord) (m : MembershipCertificate)
      → MembershipCertificate.verify m authority ≡ true
      → m.network_id ≡ authority.network_id
      → record_matches_membership r m ≡ true
      → PeerRecord.verify r ≡ true
      → IsVouched authority r m.serial
  unfolding record_matches_membership
  IsVouched-of_checks authority r m certified network matches signed = record {
    certificate = m;
    certified = certified;
    serial_of = refl;
    network = ground arith;
    same_sister = ground arith;
    same_key = ground arith;
    self_signed = signed;
  }

  publish-IsTrusted :
      (authority : NetworkAuthority) (g : Gateway) (r : PeerRecord) (m : MembershipCertificate)
      (now : ℕ)
      → MembershipCertificate.verify m authority ≡ true
      → m.network_id ≡ authority.network_id
      → IsTrusted authority g
      → IsTrusted authority (publish g r m now).0
  unfolding publish
  publish-IsTrusted authority g r m now certified network h =
      elim (Bool-cases (record_matches_membership r m)) [
        | inr differs ↦ rw (differs, publish) h
        | inl matches ↦ elim (Bool-cases (PeerRecord.verify r)) [
          | inr forged ↦ rw (matches, forged, publish) h
          | inl signed ↦
              rw (matches, signed, publish)
                (upsert-IsTrusted authority g r m now
                  (IsVouched-of_checks authority r m certified network matches signed) h)
        ]
      ]

  step-IsTrusted :
      (g : Gateway) (c : Call)
      → IsTrusted g.config.authority g
      → IsTrusted g.config.authority (step g c)
  unfolding step announce peers
  step-IsTrusted g (announces none now later) h = h
  step-IsTrusted g (announces (some q) now later) h =
      announce_cases (IsTrusted g.config.authority) g now later q
        (authenticate-IsTrusted _ g q.auth _ q.membership now h)
        (λ key e.
          let a = authenticate-Accepts g q.auth _ q.membership now e in
          publish-IsTrusted _ _ q.peer_record q.membership later a.certified a.member_network
            (authenticate-IsTrusted _ g q.auth _ q.membership now h))
  step-IsTrusted g (lists none now later) h = h
  step-IsTrusted g (lists (some q) now later) h =
      peers_cases (IsTrusted g.config.authority) g now later q
        (authenticate-IsTrusted _ g q.auth _ q.membership now h)

  run-IsTrusted :
      (authority : NetworkAuthority) (g : Gateway) (cs : List Call)
      → g.config.authority ≡ authority
      → IsTrusted authority g
      → IsTrusted authority (run g cs)
  unfolding run
  run-IsTrusted authority g [] same h = h
  run-IsTrusted authority g (c ∷ cs) same h =
      run-IsTrusted authority (step g c) cs
        (ap (λ (k : GatewayConfig). k.authority) (config-step g c) ∙ same)
        (subst (λ a. IsTrusted a (step g c)) same
          (step-IsTrusted g c (subst (λ a. IsTrusted a g) (sym same) h)))

  -- A vouched locator, with some serial.
  abbrev pub IsVouchedRecord : NetworkAuthority → PeerRecord → Type 0
  IsVouchedRecord authority r = (serial : ℕ) × IsVouched authority r serial

  live_of-IsVouched :
      (authority : NetworkAuthority) (now : ℕ) (m : Map ℕ DirectoryEntry)
      → AllEntries (IsFiled authority) m
      → All (IsVouchedRecord authority) (live_of now m)
  unfolding live_of
  live_of-IsVouched authority now [] h = tt
  live_of-IsVouched authority now ((id, entry) ∷ m) h =
      elim (Bool-cases (ltb now entry.expires_at)) [
        | inl live ↦
            rw (live, live_of)
              ((entry.membership_serial, h.0.vouched), live_of-IsVouched authority now m h.1)
        | inr stale ↦ rw (stale, live_of) (live_of-IsVouched authority now m h.1)
      ]

  -- After any requests to a new Gateway, every record that it lists is a locator of its network,
  -- self-signed by the key of the Sister that it names, and that Sister and that key are bound by
  -- a certificate which verifies against the authority.
  pub live_records-vouched :
      (config : GatewayConfig) (cs : List Call) (now : ℕ)
      → All (IsVouchedRecord config.authority) (live_records (run (new config) cs) now)
  unfolding live_records new
  live_records-vouched config cs now =
      live_of-IsVouched config.authority now (run (new config) cs).members
        (run-IsTrusted config.authority (new config) cs refl tt)

  live_entry-some :
      (o : Option DirectoryEntry) (now : ℕ) (r : PeerRecord) (serial : ℕ)
      → live_entry o now ≡ some (r, serial)
      → (entry : DirectoryEntry) × (o ≡ some entry)
        × (entry.peer_record ≡ r)
        × (entry.membership_serial ≡ serial)
  unfolding live_entry
  live_entry-some none now r serial h = cc
  live_entry-some (some entry) now r serial h = (entry, refl, ground arith, ground arith)

  -- After any requests, what `entry_for` finds for a Sister is a vouched locator of that very
  -- Sister, with the serial of the certificate that vouches for it.
  pub entry_for-IsVouched :
      (config : GatewayConfig) (cs : List Call) (sister_id now : ℕ) (r : PeerRecord) (serial : ℕ)
      → entry_for (run (new config) cs) sister_id now ≡ some (r, serial)
      → IsVouched config.authority r serial × (r.sister_id.number ≡ sister_id)
  unfolding entry_for new
  entry_for-IsVouched config cs sister_id now r serial found =
      let g = run (new config) cs in
      let (entry, e, same, number) =
        live_entry-some (Map.lookup sister_id g.members) now r serial found in
      let filed =
        AllEntries-lookup (IsFiled config.authority) sister_id entry g.members
          (run-IsTrusted config.authority (new config) cs refl tt) e in
      subst (λ s. IsVouched config.authority r s × (r.sister_id.number ≡ sister_id)) number
        (subst
          (λ x.
            IsVouched config.authority x entry.membership_serial × (x.sister_id.number ≡ sister_id))
          same (filed.vouched, filed.filed))
