-- ===== src/Runtime/NetworkStores.antt =====
-- crates/misaka-runtime/src: the stores of a network's own files, network_id_store.rs,
-- network_authority_store.rs, membership_store.rs, peer_record_store.rs and gateway_store.rs, each over
-- its file. A load gives what the file holds, and an error for a file that does not read.
use misaka.Prelude.{ℕ, not, Option, none, some, List, [], ◌∷◌, ◌==◌, nat_eq, if◌then◌else◌}
use misaka.Prelude.Map
use misaka.Prelude.Map.{Map}
use misaka.Prelude.Result.{Result, ok, err}
use misaka.Core.Types.{NetworkId, NetworkAuthority, PeerRecord, network_id_eq, network_authority_eq}
use misaka.Runtime.Enrollment.{sort_by_sister}
use misaka.Runtime.JsonFile.{JsonFile, missing, holds, garbled, Write, whole, torn, written}

pub data NetworkStoreError : Type 0 where
  io invalid mismatch : NetworkStoreError

-- What a save does: its result, and the file that it leaves.
abbrev pub Saved {ℓ} : Type ℓ → Type ℓ
Saved A = Result NetworkStoreError (Unit {0}) × JsonFile A

unfoldable pub load {ℓ} : {A : Type ℓ} → JsonFile A → Result NetworkStoreError (Option A)
load missing = ok none
load (holds value) = ok (some value)
load garbled = err invalid

unfoldable pub save {ℓ} : {A : Type ℓ} → A → Write A → Saved A
save value whole = (ok tt, written value whole)
save value (torn left) = (err io, written value (torn left))

-- NetworkIdStore::load_or_init, for a requested network
unfoldable pub init_requested :
    Result NetworkStoreError (Option NetworkId)
    → JsonFile NetworkId
    → NetworkId
    → Write NetworkId
    → Saved NetworkId
unfolding save
init_requested (err e) file requested write = (err e, file)
init_requested (ok none) file requested write = save requested write
init_requested (ok (some persisted)) file requested write =
    if not (requested == persisted) then (err mismatch, file) else (ok tt, file)

unfoldable pub load_or_init : JsonFile NetworkId → NetworkId → Write NetworkId → Saved NetworkId
unfolding load init_requested
load_or_init file requested write = init_requested (load file) file requested write

-- NetworkAuthorityStore::install_descriptor
unfoldable pub install_loaded :
    Result NetworkStoreError (Option NetworkAuthority)
    → JsonFile NetworkAuthority
    → NetworkAuthority
    → Write NetworkAuthority
    → Saved NetworkAuthority
unfolding save
install_loaded (err e) file authority write = (err e, file)
install_loaded (ok none) file authority write = save authority write
install_loaded (ok (some existing)) file authority write =
    if not (existing == authority) then (err mismatch, file) else (ok tt, file)

unfoldable pub install_descriptor :
    JsonFile NetworkAuthority → NetworkAuthority → Write NetworkAuthority → Saved NetworkAuthority
unfolding load install_loaded
install_descriptor file authority write = install_loaded (load file) file authority write

-- The map that `collect` makes of records, where a later record of a Sister replaces an earlier one.
unfoldable pub collect_records : List PeerRecord → Map ℕ PeerRecord → Map ℕ PeerRecord
collect_records [] m = m
collect_records (r ∷ rs) m = collect_records rs (Map.insert r.sister_id.number r m)

-- PeerRecordStore::save_to_dir: the text of the map
unfoldable pub records_text : Map ℕ PeerRecord → List PeerRecord
records_text m = sort_by_sister (Map.values m)
