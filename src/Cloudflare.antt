-- ===== src/Cloudflare.antt =====
-- gateway/cloudflare/src/directory.rs and auth.rs: the Gateway directory of one Network on Cloudflare.
-- The two tables are maps by their primary keys, and each SQL statement is the function that its text
-- describes. The platform runs the alarm; it is an event at any time.
pub mod Spent
mod Tests
use misaka.Prelude.{
  ℕ, ◌+◌, ◌%◌, ◌^◌, Bytes, Bool, true, false, not, Option, none, some, List, [], ◌∷◌, ltb, leb,
  if◌then◌else◌, nat_eq, bytes_eq,
}
use misaka.Prelude.Map
use misaka.Prelude.Map.{Map}
use misaka.Prelude.Result.{Result, ok, err}
use misaka.Core.Types.{
  SisterPublicKey, NetworkAuthority, MembershipCertificate, PeerRecord, GatewayAuth,
  GatewayAnnounceRequest, GatewayPeersRequest,
}
use misaka.Core.PeerRecord
use misaka.Core.Wire.{Wire}
use misaka.Core.Gateway.{
  GatewayAuthError, verify_request, announce_body_bytes, peers_body_bytes,
  record_matches_membership,
}

-- AUTH_WINDOW_SECS
abbrev pub auth_window_secs : ℕ
auth_window_secs = 300

-- NONCE_TTL_SECS
abbrev pub nonce_ttl_secs : ℕ
nonce_ttl_secs = 900

-- RECORD_TTL_SECS
abbrev pub record_ttl_secs : ℕ
record_ttl_secs = 600

-- The times and sequences are u64 words that are stored `as i64`: SQL orders them as signed numbers.
unfoldable pub lt_i64 : ℕ → ℕ → Bool
lt_i64 a b = ltb ((a + 2 ^ 63) % 2 ^ 64) ((b + 2 ^ 63) % 2 ^ 64)

-- A row of the `peers` table.
pub record PeerRow : Type 0 where
  pub peer_record : PeerRecord
  pub sequence : ℕ
  pub membership_serial : ℕ
  pub last_seen : ℕ
  pub expires_at : ℕ

-- The storage of the object, and what its environment configures.
pub record GatewayDirectory : Type 0 where
  pub authority : NetworkAuthority
  pub record_ttl : ℕ
  pub nonce_ttl : ℕ
  pub rows : Map ℕ PeerRow
  pub nonces : Map Bytes ℕ

pub data DirectoryError : Type 0 where
  auth : GatewayAuthError → DirectoryError
  replayed invalid_body identity_mismatch invalid_record : DirectoryError

-- INSERT INTO nonces, where a row of that key is a conflict.
unfoldable pub insert_nonce :
    GatewayDirectory → Bytes → ℕ → Option ℕ → GatewayDirectory × Result DirectoryError (Unit {0})
insert_nonce d nonce now none =
    (record d { nonces = Map.insert nonce ((now + d.nonce_ttl) % 2 ^ 64) d.nonces }, ok tt)
insert_nonce d nonce now (some _) = (d, err replayed)

unfoldable pub spend_nonce :
    GatewayDirectory → Bytes → ℕ → GatewayDirectory × Result DirectoryError (Unit {0})
unfolding insert_nonce
spend_nonce d nonce now = insert_nonce d nonce now (Map.lookup nonce d.nonces)

-- ON CONFLICT(sister_id) DO UPDATE SET …
unfoldable pub update_row : PeerRow → PeerRow → PeerRow
unfolding lt_i64
update_row old excluded =
    if lt_i64 old.sequence excluded.sequence
    then excluded
    else record old { last_seen = excluded.last_seen; expires_at = excluded.expires_at }

-- … WHERE excluded.sequence >= peers.sequence
unfoldable pub upsert_row : Map ℕ PeerRow → ℕ → PeerRow → Option PeerRow → Map ℕ PeerRow
unfolding update_row
upsert_row rows id excluded none = Map.insert id excluded rows
upsert_row rows id excluded (some old) =
    if lt_i64 excluded.sequence old.sequence
    then rows
    else Map.insert id (update_row old excluded) rows

unfoldable pub new_row : GatewayDirectory → GatewayAnnounceRequest → ℕ → PeerRow
new_row d request now = record {
  peer_record = request.peer_record;
  sequence = request.peer_record.sequence;
  membership_serial = request.membership.serial;
  last_seen = now;
  expires_at = (now + d.record_ttl) % 2 ^ 64;
}

-- SELECT record FROM peers WHERE expires_at > now; the order of the rows is not specified.
unfoldable pub select_live : ℕ → Map ℕ PeerRow → List PeerRecord
select_live now [] = []
select_live now ((id, row) ∷ rows) =
    let rest = select_live now rows in
    if lt_i64 now row.expires_at then row.peer_record ∷ rest else rest

-- The alarm's DELETE … WHERE expires_at <= now, on both tables.
unfoldable pub alarm : GatewayDirectory → ℕ → GatewayDirectory
unfolding lt_i64
alarm d now = record d {
  rows = Map.retain (λ _ row. lt_i64 now row.expires_at) d.rows;
  nonces = Map.retain (λ _ expires_at. lt_i64 now expires_at) d.nonces;
}

module _ ⦃w : Wire⦄ where
  -- The first two steps of both routes: the stateless checks, and the nonce.
  unfoldable pub admit_verified :
      GatewayDirectory
      → Bytes
      → ℕ
      → Result GatewayAuthError SisterPublicKey
      → GatewayDirectory × Result DirectoryError (Unit {0})
  unfolding spend_nonce
  admit_verified d nonce now (err e) = (d, err (auth e))
  admit_verified d nonce now (ok key) = spend_nonce d nonce now

  unfoldable pub admit :
      GatewayDirectory
      → GatewayAuth
      → Bytes
      → MembershipCertificate
      → ℕ
      → GatewayDirectory × Result DirectoryError (Unit {0})
  unfolding admit_verified
  admit d a body m now =
      admit_verified d a.nonce now (verify_request a body m d.authority now auth_window_secs)

  unfoldable pub publish :
      GatewayAnnounceRequest
      → ℕ
      → GatewayDirectory × Result DirectoryError (Unit {0})
      → GatewayDirectory × Result DirectoryError (Unit {0})
  unfolding upsert_row new_row
  publish request now (d, err e) = (d, err e)
  publish request now (d, ok u) =
      if not (record_matches_membership request.peer_record request.membership)
      then (d, err identity_mismatch)
      else if not (PeerRecord.verify request.peer_record)
      then (d, err invalid_record)
      else (
        record d {
          rows =
              upsert_row d.rows request.peer_record.sister_id.number (new_row d request now)
                (Map.lookup request.peer_record.sister_id.number d.rows);
        },
        ok tt,
      )

  unfoldable pub handle_announce :
      GatewayDirectory
      → Option GatewayAnnounceRequest
      → ℕ
      → GatewayDirectory × Result DirectoryError (Unit {0})
  unfolding admit publish
  handle_announce d none now = (d, err invalid_body)
  handle_announce d (some request) now = publish request now (
      admit d request.auth (announce_body_bytes request.membership request.peer_record)
        request.membership now)

  unfoldable pub list_live :
      ℕ
      → GatewayDirectory × Result DirectoryError (Unit {0})
      → GatewayDirectory × Result DirectoryError (List PeerRecord)
  unfolding select_live
  list_live now (d, err e) = (d, err e)
  list_live now (d, ok u) = (d, ok (select_live now d.rows))

  unfoldable pub handle_peers :
      GatewayDirectory
      → Option GatewayPeersRequest
      → ℕ
      → GatewayDirectory × Result DirectoryError (List PeerRecord)
  unfolding admit list_live
  handle_peers d none now = (d, err invalid_body)
  handle_peers d (some request) now =
      list_live now (admit d request.auth peers_body_bytes request.membership now)

-- What happens to the object, with the clock as it is read.
pub data Event : Type 0 where
  announces : Option GatewayAnnounceRequest → ℕ → Event
  lists : Option GatewayPeersRequest → ℕ → Event
  alarms : ℕ → Event

module _ ⦃w : Wire⦄ where
  unfoldable pub step : GatewayDirectory → Event → GatewayDirectory
  unfolding handle_announce handle_peers alarm
  step d (announces request now) = (handle_announce d request now).0
  step d (lists request now) = (handle_peers d request now).0
  step d (alarms now) = alarm d now

  unfoldable pub run : GatewayDirectory → List Event → GatewayDirectory
  unfolding step
  run d [] = d
  run d (e ∷ es) = run (step d e) es
