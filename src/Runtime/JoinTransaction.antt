-- ===== src/Runtime/JoinTransaction.antt =====
-- crates/misaka-runtime/src/join_transaction.rs: the installation of a joined network. The directory is
-- the record of its network files; a staging directory is another one, which starts empty and is
-- thrown away. What each staged write does, and how many renames are carried out before one fails or the
-- process stops, are arguments.
pub mod Outcome
pub mod Retry
use misaka.Prelude.{
  ℕ, zero, suc, Bool, true, false, not, ◌||◌, Text, Option, none, some, List, [], ◌∷◌, ◌++◌, ◌==◌,
  is_some_and, if◌then◌else◌,
}
use misaka.Prelude.Result.{Result, ok, err, ◌>>=◌, ◌>>◌, reject}
use misaka.Core.Types.{
  NetworkId, NetworkAuthority, MembershipCertificate, PeerRecord, EnrollmentBundle, network_id_eq,
  network_authority_eq, membership_certificate_eq,
}
use misaka.Core.MembershipCertificate
use misaka.Core.Wire.{Wire}
use misaka.Runtime.JsonFile.{JsonFile, missing, holds, Write}
use misaka.Runtime.NetworkStores
use misaka.Runtime.NetworkStores.{NetworkStoreError, collect_records, records_text}

pub data JoinError : Type 0 where
  io store conflict verification : JoinError

-- The files of one directory, by their names.
pub record NetworkFiles : Type 0 where
  pub network_id : JsonFile NetworkId
  pub network_json : JsonFile NetworkAuthority
  pub membership_bin : JsonFile MembershipCertificate
  pub peer_records_json : JsonFile (List PeerRecord)
  pub gateways_json : JsonFile (List Text)

abbrev pub empty_directory : NetworkFiles
empty_directory = record {
  network_id = missing;
  network_json = missing;
  membership_bin = missing;
  peer_records_json = missing;
  gateways_json = missing;
}

pub record NetworkInstall : Type 0 where
  pub bundle : EnrollmentBundle
  pub gateways : Option (List Text)

pub record StageWrites : Type 0 where
  pub network_id : Write NetworkId
  pub network_json : Write NetworkAuthority
  pub membership_bin : Write MembershipCertificate
  pub peer_records_json : Write (List PeerRecord)
  pub gateways_json : Write (List Text)

pub data FileName : Type 0 where
  network_id_file network_json_file membership_bin_file peer_records_file gateways_file : FileName

-- A store's error, under the name that the join gives it.
unfoldable pub under {ℓ} :
    {A : Type ℓ} → JoinError → Result NetworkStoreError A → Result JoinError A
under e (ok a) = ok a
under e (err _) = err e

unfoldable pub check_network_id : JsonFile NetworkId → NetworkId → Result JoinError (Unit {0})
unfolding under
check_network_id file network_id = under store (NetworkStores.load file) >>= λ existing.
    reject (is_some_and existing (λ id. not (id == network_id))) conflict

unfoldable pub check_network_json :
    JsonFile NetworkAuthority → NetworkId → Result JoinError (Unit {0})
unfolding under
check_network_json file network_id = under store (NetworkStores.load file) >>= λ existing.
    reject (is_some_and existing (λ a. not (a.network_id == network_id))) conflict

unfoldable pub guard_existing_network : NetworkFiles → NetworkId → Result JoinError (Unit {0})
unfolding check_network_id check_network_json
guard_existing_network directory network_id =
    check_network_id directory.network_id network_id
    >> check_network_json directory.network_json network_id

-- A missing file is refused where it should have been staged.
unfoldable pub staged_value {ℓ} : {A : Type ℓ} → JsonFile A → Result JoinError A
unfolding under
staged_value file = under store (NetworkStores.load file) >>= λ value. elim value [
  | none ↦ err verification
  | some a ↦ ok a
]

unfoldable pub staged_names : Option (List Text) → List FileName
staged_names none =
    network_id_file ∷ network_json_file ∷ membership_bin_file ∷ peer_records_file ∷ []
staged_names (some gateways) =
    network_id_file ∷ network_json_file ∷ membership_bin_file ∷ peer_records_file ∷ gateways_file
    ∷ []

unfoldable pub stage_gateways :
    Option (List Text) → Write (List Text) → NetworkStores.Saved (List Text)
stage_gateways none write = (ok tt, missing)
stage_gateways (some gateways) write = NetworkStores.save gateways write

-- The staged files, before any is checked.
unfoldable pub staged_files : NetworkInstall → StageWrites → NetworkFiles
unfolding stage_gateways
staged_files install writes =
    let bundle = install.bundle in
    record {
      network_id =
          (NetworkStores.load_or_init missing bundle.authority.network_id writes.network_id).1;
      network_json =
          (NetworkStores.install_descriptor missing bundle.authority writes.network_json).1;
      membership_bin = (NetworkStores.save bundle.membership writes.membership_bin).1;
      peer_records_json =
          (NetworkStores.save (records_text (collect_records bundle.bootstrap_records []))
            writes.peer_records_json).1;
      gateways_json = (stage_gateways install.gateways writes.gateways_json).1;
    }

module _ ⦃w : Wire⦄ where
  unfoldable pub verify_staged : NetworkFiles → EnrollmentBundle → Result JoinError (Unit {0})
  unfolding staged_value
  verify_staged staged bundle = staged_value staged.network_json >>= λ authority.
      staged_value staged.membership_bin >>= λ membership.
      reject
        (not (membership == bundle.membership)
          || not (MembershipCertificate.verify membership authority)
          || not (authority == bundle.authority))
        verification

  -- The staged directory; each write is tried only after those before it.
  unfoldable pub stage_and_validate : NetworkInstall → StageWrites → Result JoinError NetworkFiles
  unfolding staged_files verify_staged under
  stage_and_validate install writes =
      let bundle = install.bundle in
      under store
        (NetworkStores.load_or_init missing bundle.authority.network_id writes.network_id).0
      >> (under store
            (NetworkStores.install_descriptor missing bundle.authority writes.network_json).0
          >> (under store (NetworkStores.save bundle.membership writes.membership_bin).0
              >> (under io
                    (NetworkStores.save (records_text (collect_records bundle.bootstrap_records []))
                      writes.peer_records_json).0
                  >> (under io (stage_gateways install.gateways writes.gateways_json).0
                      >> (verify_staged (staged_files install writes) bundle
                          >> ok (staged_files install writes))))))

-- std::fs::rename of one file over the one in the directory
unfoldable pub rename : FileName → NetworkFiles → NetworkFiles → NetworkFiles
rename network_id_file staged directory = record directory { network_id = staged.network_id }
rename network_json_file staged directory = record directory { network_json = staged.network_json }
rename membership_bin_file staged directory = record directory {
  membership_bin = staged.membership_bin;
}
rename peer_records_file staged directory = record directory {
  peer_records_json = staged.peer_records_json;
}
rename gateways_file staged directory = record directory { gateways_json = staged.gateways_json }

-- The number is that of the renames that are carried out.
unfoldable pub commit_staged :
    List FileName → ℕ → NetworkFiles → NetworkFiles → Result JoinError (Unit {0}) × NetworkFiles
unfolding rename
commit_staged [] n staged directory = (ok tt, directory)
commit_staged (name ∷ names) zero staged directory = (err io, directory)
commit_staged (name ∷ names) (suc n) staged directory =
    commit_staged names n staged (rename name staged directory)

unfoldable pub commit_result :
    Result JoinError NetworkFiles
    → List FileName
    → ℕ
    → NetworkFiles
    → Result JoinError (Unit {0}) × NetworkFiles
unfolding commit_staged
commit_result (err e) names n directory = (err e, directory)
commit_result (ok staged) names n directory = commit_staged names n staged directory

unfoldable pub install_network :
    ⦃w : Wire⦄
    → NetworkFiles
    → NetworkInstall
    → StageWrites
    → ℕ
    → Result JoinError (Unit {0}) × NetworkFiles
unfolding commit_result staged_names
install_network directory install writes n =
    commit_result
      (guard_existing_network directory install.bundle.authority.network_id
        >> stage_and_validate install writes)
      (staged_names install.gateways) n directory
