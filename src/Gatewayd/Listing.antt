-- ===== src/Gatewayd/Listing.antt =====
-- crates/misaka-gatewayd/src/lib.rs: how long an announced record stays listed.
use misaka.Prelude.{
  ℕ, ◌+◌, ◌^◌, ◌≤◌, ◌<◌, ◌≡◌, refl, sym, ap, ◌∙◌, Bool, true, false, ◌&&◌, some, List, [], ◌∷◌, any,
  ◌==◌, leb, arith, nat_eq, inl, inr, All, Bool-cases,
}
use misaka.Prelude.Map
use misaka.Prelude.Map.{Map, lookup-insert}
use misaka.Prelude.Result.{ok, Result-cases}
use misaka.Core.Types.{
  MembershipCertificate, PeerRecord, GatewayAnnounceRequest, GatewayPeersRequest,
}
use misaka.Core.Wire.{Wire}
use misaka.Core.Gateway.{announce_body_bytes, peers_body_bytes}
use misaka.Gatewayd.{
  GatewayConfig, DirectoryEntry, is_stale, new_entry, Gateway, Call, peers, live_of, live_records,
  authenticate, upsert, publish, announce, run, entry_for, live_entry,
}
use misaka.Gatewayd.Cases.{config-authenticate, members-authenticate}
use misaka.Gatewayd.Listed.{write_time, IsListed, run-IsListed}

-- Some record of the list is of the Sister, with the sequence or a higher one.
abbrev pub lists_sister : ℕ → ℕ → List PeerRecord → Bool
lists_sister id sequence records =
    any (λ r. r.sister_id.number == id && leb sequence r.sequence) records

-- What is found and live is among the live records.
live_of-lists :
    (id sequence now : ℕ) (m : Map ℕ DirectoryEntry) (entry : DirectoryEntry)
    → Map.lookup id m ≡ some entry
    → entry.peer_record.sister_id.number ≡ id
    → sequence ≤ entry.peer_record.sequence
    → now < entry.expires_at
    → lists_sister id sequence (live_of now m) ≡ true
unfolding live_of Map.lookup
live_of-lists id sequence now [] entry found filed newer live = cc
live_of-lists id sequence now ((at, e) ∷ m) entry found filed newer live =
    elim (Bool-cases (at == id)) [
      | inl here ↦ ground (arith, here, found, filed, newer, live)
      | inr there ↦ ground (
        arith,
        there,
        found,
        live_of-lists id sequence now m entry (rw there at found) filed newer live,
      )
    ]

module _ ⦃w : Wire⦄ where
  publish_ok :
      (g : Gateway) (r : PeerRecord) (m : MembershipCertificate) (now : ℕ)
      → (publish g r m now).1 ≡ ok tt
      → (publish g r m now).0 ≡ upsert g r m now
  unfolding publish
  publish_ok g r m now h = ground arith

  -- A successful announce is an authentication and then the directory write.
  pub announce_ok :
      (g : Gateway) (q : GatewayAnnounceRequest) (now later : ℕ)
      → (announce g (some q) now later).1 ≡ ok tt
      → let g' =
          (authenticate g q.auth
            (announce_body_bytes q.membership q.peer_record)
            q.membership
            now).0 in
        (announce g (some q) now later).0 ≡ upsert g' q.peer_record q.membership later
  unfolding announce
  announce_ok g q now later h =
      let body = announce_body_bytes q.membership q.peer_record in
      elim (Result-cases (authenticate g q.auth body q.membership now).1) [
        | inl (key, e) ↦
            rw (e, announce)
              (publish_ok (authenticate g q.auth body q.membership now).0 q.peer_record q.membership
                later (rw (e, announce) at h))
        | inr (error, e) ↦ cc (rw (e, announce) at h)
      ]

  upsert_writes :
      (g : Gateway) (r : PeerRecord) (m : MembershipCertificate) (now ttl : ℕ)
      → g.config.record_ttl_secs ≡ ttl
      → is_stale g r now ≡ false
      → now + ttl < 2 ^ 64
      → IsListed r.sister_id.number r.sequence (now + ttl) (upsert g r m now)
  unfolding upsert new_entry
  upsert_writes g r m now ttl same fresh small = record {
    entry = new_entry g r m now;
    found = ground (
      arith,
      lookup-insert r.sister_id.number r.sister_id.number (new_entry g r m now) g.members,
    );
    filed = refl;
    newer = ground arith;
    lasts = ground arith;
  }

  config-upsert :
      (g : Gateway) (r : PeerRecord) (m : MembershipCertificate) (now : ℕ)
      → (upsert g r m now).config ≡ g.config
  unfolding upsert
  config-upsert g r m now = ground arith

  is_stale-members :
      (g h : Gateway) (r : PeerRecord) (now : ℕ)
      → h.members ≡ g.members
      → is_stale h r now ≡ is_stale g r now
  unfolding is_stale
  is_stale-members g h r now e = rw e

  entry_for-IsListed :
      (g : Gateway) (id sequence bound now : ℕ)
      → IsListed id sequence bound g
      → now < bound
      → (r : PeerRecord) × (serial : ℕ) × (entry_for g id now ≡ some (r, serial))
        × (sequence ≤ r.sequence)
  unfolding entry_for live_entry
  entry_for-IsListed g id sequence bound now l early =
      (l.entry.peer_record, l.entry.membership_serial, ground (arith, l.found, l.lasts), l.newer)

  -- What an accepted listing request is answered with.
  peers_ok :
      (g : Gateway) (request : GatewayPeersRequest) (now later : ℕ) (records : List PeerRecord)
      → (peers g (some request) now later).1 ≡ ok records
      → live_records (authenticate g request.auth peers_body_bytes request.membership now).0 later
        ≡ records
  unfolding peers
  peers_ok g request now later records h =
      elim (Result-cases (authenticate g request.auth peers_body_bytes request.membership now).1) [
        | inl (key, e) ↦ cc (rw (e, peers) at h)
        | inr (error, e) ↦ cc (rw (e, peers) at h)
      ]

  peers-IsListed :
      (g : Gateway) (request : GatewayPeersRequest) (asked now id sequence bound : ℕ)
      (records : List PeerRecord)
      → IsListed id sequence bound g
      → now < bound
      → (peers g (some request) asked now).1 ≡ ok records
      → lists_sister id sequence records ≡ true
  unfolding live_records
  peers-IsListed g request asked now id sequence bound records l early answered =
      let found =
        live_of-lists id sequence now g.members l.entry l.found l.filed l.newer
          (ground (arith, early, l.lasts)) in
      let same = members-authenticate g request.auth peers_body_bytes request.membership asked in
      ap (lists_sister id sequence)
        (sym (peers_ok g request asked now records answered) ∙ ap (live_of now) same)
      ∙ found

  -- A record that was announced with success, when no live entry of its Sister had a higher
  -- sequence, is listed for the whole of its time to live, itself or a later sequence: after any
  -- further requests whose directory writes read the clock between `later` and `last`, the answer to
  -- every accepted listing request that reads the directory at `last` has a record of that Sister
  -- whose sequence is at least the announced one, and so has the entry that is found for her.
  -- The u64 additions do not wrap.
  pub announced_is_listed :
      (g : Gateway) (q : GatewayAnnounceRequest) (now later asked last : ℕ) (cs : List Call)
      (request : GatewayPeersRequest) (records : List PeerRecord)
      → (announce g (some q) now later).1 ≡ ok tt
      → is_stale g q.peer_record later ≡ false
      → later ≤ last
      → last < later + g.config.record_ttl_secs
      → last + g.config.record_ttl_secs < 2 ^ 64
      → All (λ c. (later ≤ write_time c) × (write_time c ≤ last)) cs
      → (peers (run (announce g (some q) now later).0 cs) (some request) asked last).1 ≡ ok records
      → (lists_sister q.peer_record.sister_id.number q.peer_record.sequence records ≡ true)
        × ((r : PeerRecord) × (serial : ℕ) × (entry_for
                (run (announce g (some q) now later).0 cs)
                q.peer_record.sister_id.number
                last
              ≡ some (r, serial))
            × (q.peer_record.sequence ≤ r.sequence))
  announced_is_listed g q now later asked last cs request records accepted fresh ordered early small
        between answered =
      let body = announce_body_bytes q.membership q.peer_record in
      let g' = (authenticate g q.auth body q.membership now).0 in
      let ttl : g'.config.record_ttl_secs ≡ g.config.record_ttl_secs =
        ap (λ (k : GatewayConfig). k.record_ttl_secs)
          (config-authenticate g q.auth body q.membership now) in
      let members = members-authenticate g q.auth body q.membership now in
      let written =
        upsert_writes g' q.peer_record q.membership later g.config.record_ttl_secs ttl
          (is_stale-members g g' q.peer_record later members ∙ fresh) (omega arith) in
      let done = announce_ok g q now later accepted in
      let listed =
        run-IsListed q.peer_record.sister_id.number q.peer_record.sequence
          (later + g.config.record_ttl_secs) later last g.config.record_ttl_secs
          (announce g (some q) now later).0 cs
          (rw done (
            ap (λ (k : GatewayConfig). k.record_ttl_secs)
              (config-upsert g' q.peer_record q.membership later)
            ∙ ttl))
          refl early small between (rw done written) in
      (
        peers-IsListed _ request asked last q.peer_record.sister_id.number q.peer_record.sequence
            (later + g.config.record_ttl_secs) records listed early answered,
        entry_for-IsListed _ q.peer_record.sister_id.number q.peer_record.sequence
            (later + g.config.record_ttl_secs) last listed early,
      )
