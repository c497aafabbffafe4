-- ===== src/Runtime/JoinTransaction/Outcome.antt =====
-- crates/misaka-runtime/src/join_transaction.rs: what an installation leaves, whatever its writes do
-- and wherever its renames stop.
use misaka.Prelude.{
  ℕ, zero, suc, ◌≡◌, refl, subst, ◌⊎◌, inl, inr, Text, Option, none, some, List, [], ◌∷◌, arith,
  All,
}
use misaka.Prelude.Result.{Result, ok, err, ◌>>◌}
use misaka.Core.Types.{
  NetworkId, NetworkAuthority, MembershipCertificate, PeerRecord, EnrollmentBundle, network_id_eq,
  network_authority_eq, membership_certificate_eq,
}
use misaka.Core.Wire.{Wire}
use misaka.Runtime.JsonFile.{JsonFile, holds, Write, whole, torn, written}
use misaka.Runtime.NetworkStores
use misaka.Runtime.NetworkStores.{collect_records, records_text}
use misaka.Runtime.JoinTransaction.{
  JoinError, NetworkFiles, NetworkInstall, StageWrites, FileName, network_id_file,
  network_json_file, membership_bin_file, peer_records_file, gateways_file, staged_names,
  stage_gateways, staged_files, stage_and_validate, rename, commit_staged, commit_result,
  install_network,
}

unfoldable pub gateways_after : Option (List Text) → JsonFile (List Text) → JsonFile (List Text)
gateways_after none old = old
gateways_after (some gateways) old = holds gateways

-- What a complete installation leaves of a directory.
unfoldable pub installed : NetworkInstall → NetworkFiles → NetworkFiles
unfolding gateways_after
installed install old = record {
  network_id = holds install.bundle.authority.network_id;
  network_json = holds install.bundle.authority;
  membership_bin = holds install.bundle.membership;
  peer_records_json = holds (records_text (collect_records install.bundle.bootstrap_records []));
  gateways_json = gateways_after install.gateways old.gateways_json;
}

-- Each file of a directory is that of one directory or that of another.
unfoldable pub IsMix : NetworkFiles → NetworkFiles → NetworkFiles → Type 0
IsMix old new d =
    ((d.network_id ≡ old.network_id) ⊎ (d.network_id ≡ new.network_id))
    × ((d.network_json ≡ old.network_json) ⊎ (d.network_json ≡ new.network_json))
    × ((d.membership_bin ≡ old.membership_bin) ⊎ (d.membership_bin ≡ new.membership_bin))
    × ((d.peer_records_json ≡ old.peer_records_json)
        ⊎ (d.peer_records_json ≡ new.peer_records_json))
    × ((d.gateways_json ≡ old.gateways_json) ⊎ (d.gateways_json ≡ new.gateways_json))

-- A staged directory has the files of the complete installation, and gateways when there are some.
AgreesOn : FileName → NetworkFiles → NetworkFiles → Type 0
AgreesOn network_id_file staged new = staged.network_id ≡ new.network_id
AgreesOn network_json_file staged new = staged.network_json ≡ new.network_json
AgreesOn membership_bin_file staged new = staged.membership_bin ≡ new.membership_bin
AgreesOn peer_records_file staged new = staged.peer_records_json ≡ new.peer_records_json
AgreesOn gateways_file staged new = staged.gateways_json ≡ new.gateways_json

rename-IsMix :
    (name : FileName) (old new staged d : NetworkFiles)
    → AgreesOn name staged new
    → IsMix old new d
    → IsMix old new (rename name staged d)
unfolding IsMix AgreesOn rename
rename-IsMix network_id_file old new staged d a m = (inr a, m.1, m.2, m.3, m.4)
rename-IsMix network_json_file old new staged d a m = (m.0, inr a, m.2, m.3, m.4)
rename-IsMix membership_bin_file old new staged d a m = (m.0, m.1, inr a, m.3, m.4)
rename-IsMix peer_records_file old new staged d a m = (m.0, m.1, m.2, inr a, m.4)
rename-IsMix gateways_file old new staged d a m = (m.0, m.1, m.2, m.3, inr a)

commit-IsMix :
    (names : List FileName) (n : ℕ) (old new staged d : NetworkFiles)
    → All (λ name. AgreesOn name staged new) names
    → IsMix old new d
    → IsMix old new (commit_staged names n staged d).1
unfolding commit_staged
commit-IsMix [] n old new staged d a m = m
commit-IsMix (name ∷ names) zero old new staged d a m = m
commit-IsMix (name ∷ names) (suc n) old new staged d a m =
    commit-IsMix names n old new staged (rename name staged d) a.1
      (rename-IsMix name old new staged d a.0 m)

module _ ⦃w : Wire⦄ where
  abbrev Staged : NetworkInstall → NetworkFiles → NetworkFiles → Type 0
  Staged install old staged =
      All (λ name. AgreesOn name staged (installed install old)) (staged_names install.gateways)

  checked_files :
      (check : Result JoinError (Unit {0})) (files staged : NetworkFiles)
      → (check >> ok files) ≡ ok staged
      → files ≡ staged
  checked_files (ok u) files staged h = ground (arith, h)
  checked_files (err e) files staged h = cc

  -- Staging that succeeds has written every file whole.
  staged_lem :
      (bundle : EnrollmentBundle) (gateways : Option (List Text)) (a : Write NetworkId)
      (b : Write NetworkAuthority) (c : Write MembershipCertificate) (d : Write (List PeerRecord))
      (e : Write (List Text)) (old staged : NetworkFiles)
      → stage_and_validate
          (record { bundle = bundle; gateways = gateways })
          (record {
            network_id = a;
            network_json = b;
            membership_bin = c;
            peer_records_json = d;
            gateways_json = e;
          })
        ≡ ok staged
      → Staged (record { bundle = bundle; gateways = gateways }) old staged
  unfolding stage_and_validate staged_files installed gateways_after AgreesOn staged_names
      stage_gateways NetworkStores.load_or_init NetworkStores.install_descriptor NetworkStores.save
      written
  staged_lem bundle g (torn a) b c d e old staged h = cc
  staged_lem bundle g whole (torn b) c d e old staged h = cc
  staged_lem bundle g whole whole (torn c) d e old staged h = cc
  staged_lem bundle g whole whole whole (torn d) e old staged h = cc
  staged_lem bundle (some g) whole whole whole whole (torn e) old staged h = cc
  staged_lem bundle none whole whole whole whole e old staged h =
      subst (Staged (record { bundle = bundle; gateways = none }) old) (checked_files _ _ staged h)
        (refl, (refl, (refl, (refl, tt))))
  staged_lem bundle (some g) whole whole whole whole whole old staged h =
      subst (Staged (record { bundle = bundle; gateways = some g }) old)
        (checked_files _ _ staged h) (refl, (refl, (refl, (refl, (refl, tt)))))

  commit_result-IsMix :
      (install : NetworkInstall) (writes : StageWrites) (n : ℕ) (directory : NetworkFiles)
      (r : Result JoinError NetworkFiles)
      → ((staged : NetworkFiles) → r ≡ ok staged → Staged install directory staged)
      → IsMix directory
          (installed install directory)
          (commit_result r (staged_names install.gateways) n directory).1
  unfolding commit_result
  commit_result-IsMix install writes n directory (err e) s =
      unfold IsMix in (inl refl, inl refl, inl refl, inl refl, inl refl)
  commit_result-IsMix install writes n directory (ok staged) s =
      commit-IsMix (staged_names install.gateways) n directory (installed install directory) staged
        directory (s staged refl)
        (unfold IsMix in (inl refl, inl refl, inl refl, inl refl, inl refl))

  guarded :
      (check : Result JoinError (Unit {0})) (r : Result JoinError NetworkFiles)
      (staged : NetworkFiles)
      → (check >> r) ≡ ok staged
      → r ≡ ok staged
  guarded (ok u) r staged h = h
  guarded (err e) r staged h = cc

  -- An installation never leaves a torn file: wherever its writes fail and its renames stop, each
  -- network file of the directory is as it was before or as the complete installation leaves it.
  pub install_network-IsMix :
      (directory : NetworkFiles) (install : NetworkInstall) (writes : StageWrites) (n : ℕ)
      → IsMix directory (installed install directory) (install_network directory install writes n).1
  unfolding install_network
  install_network-IsMix directory install writes n =
      commit_result-IsMix install writes n directory _ (λ staged h.
        staged_lem install.bundle install.gateways writes.network_id writes.network_json
          writes.membership_bin writes.peer_records_json writes.gateways_json directory staged
          (guarded _ _ staged h))
