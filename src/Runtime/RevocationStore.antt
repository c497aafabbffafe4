-- ===== src/Runtime/RevocationStore.antt =====
-- crates/misaka-runtime/src/revocation_store.rs: the signed revocation list of a network.
pub mod Permanent
use misaka.Prelude.{
  ℕ, Bool, true, false, not, ◌&&◌, List, [], ◌∷◌, ◌++◌, ◌==◌, nat_eq, any, if◌then◌else◌,
}
use misaka.Prelude.Result.{Result, ok, err, ◌>>=◌}
use misaka.Core.Types.{
  NetworkId, NetworkAuthority, MembershipKind, RevocationRecord, network_id_eq, membership_kind_eq,
}
use misaka.Core.RevocationRecord
use misaka.Core.Wire.{Wire}
use misaka.Runtime.JsonFile.{JsonFile, missing, holds, garbled, Write, whole, torn, written}

pub data RevocationStoreError : Type 0 where
  io json invalid_signature : RevocationStoreError

unfoldable pub load :
    JsonFile (List RevocationRecord) → Result RevocationStoreError (List RevocationRecord)
load missing = ok []
load (holds records) = ok records
load garbled = err json

-- RevocationStore::save, as its result and the file that it leaves
unfoldable pub save :
    List RevocationRecord
    → Write (List RevocationRecord)
    → Result RevocationStoreError (Unit {0}) × JsonFile (List RevocationRecord)
save records whole = (ok tt, written records whole)
save records (torn left) = (err io, written records (torn left))

unfoldable pub is_match : NetworkId → MembershipKind → ℕ → RevocationRecord → Bool
is_match network kind serial r =
    r.network_id == network && r.membership_kind == kind && r.membership_serial == serial

unfoldable pub is_listed : List RevocationRecord → RevocationRecord → Bool
unfolding is_match
is_listed records r = any (is_match r.network_id r.membership_kind r.membership_serial) records

unfoldable pub append_to :
    JsonFile (List RevocationRecord)
    → Result RevocationStoreError (List RevocationRecord)
    → RevocationRecord
    → Write (List RevocationRecord)
    → Result RevocationStoreError (Unit {0}) × JsonFile (List RevocationRecord)
unfolding is_listed save
append_to file (err e) r write = (err e, file)
append_to file (ok records) r write =
    if is_listed records r then (ok tt, file) else save (records ++ r ∷ []) write

module _ ⦃w : Wire⦄ where
  unfoldable pub append :
      JsonFile (List RevocationRecord)
      → NetworkAuthority
      → RevocationRecord
      → Write (List RevocationRecord)
      → Result RevocationStoreError (Unit {0}) × JsonFile (List RevocationRecord)
  unfolding load append_to
  append file authority r write =
      if not (RevocationRecord.verify r authority)
      then (err invalid_signature, file)
      else append_to file (load file) r write

  unfoldable pub search_records :
      NetworkAuthority
      → NetworkId
      → MembershipKind
      → ℕ
      → List RevocationRecord
      → Result RevocationStoreError Bool
  search_records authority network kind serial [] = ok false
  search_records authority network kind serial (r ∷ rs) =
      let rest = search_records authority network kind serial rs in
      if not (r.network_id == network)
      then rest
      else if not (RevocationRecord.verify r authority)
      then err invalid_signature
      else if r.membership_kind == kind && r.membership_serial == serial
      then ok true
      else rest

  unfoldable pub is_revoked :
      JsonFile (List RevocationRecord)
      → NetworkAuthority
      → NetworkId
      → MembershipKind
      → ℕ
      → Result RevocationStoreError Bool
  unfolding load search_records
  is_revoked file authority network kind serial = do
    records ← load file
    search_records authority network kind serial records
