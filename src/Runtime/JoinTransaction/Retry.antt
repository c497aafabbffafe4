-- ===== src/Runtime/JoinTransaction/Retry.antt =====
-- crates/misaka-runtime/src/join_transaction.rs: an installation that failed can be repeated.
use misaka.Prelude.{
  ℕ, ◌≡◌, refl, ap, ◌∙◌, ◌⊎◌, inl, inr, true, Text, Option, none, some, List, ◌==◌, arith,
}
use misaka.Prelude.Result.{Result, ok, err, ◌>>◌}
use misaka.Core.Types.{
  NetworkId, NetworkAuthority, EnrollmentBundle, network_id_eq, network_authority_eq,
  membership_certificate_eq,
}
use misaka.Core.MembershipCertificate
use misaka.Core.Wire.{Wire}
use misaka.Runtime.JsonFile.{JsonFile, holds, whole, written}
use misaka.Runtime.NetworkStores
use misaka.Runtime.JoinTransaction.{
  JoinError, NetworkFiles, NetworkInstall, StageWrites, check_network_id, check_network_json,
  guard_existing_network, staged_value, staged_names, stage_gateways, staged_files, verify_staged,
  stage_and_validate, rename, commit_staged, commit_result, install_network,
}
use misaka.Runtime.JoinTransaction.Outcome.{gateways_after, installed, IsMix, install_network-IsMix}

abbrev pub all_whole : StageWrites
all_whole = record {
  network_id = whole;
  network_json = whole;
  membership_bin = whole;
  peer_records_json = whole;
  gateways_json = whole;
}

both_ok : (a b : Result JoinError (Unit {0})) → (a >> b) ≡ ok tt → (a ≡ ok tt) × (b ≡ ok tt)
both_ok (ok u) b h = (refl, h)
both_ok (err e) b h = cc

own_id : (id : NetworkId) → check_network_id (holds id) id ≡ ok tt
unfolding check_network_id NetworkStores.load
own_id id = ground arith

own_json : (a : NetworkAuthority) → check_network_json (holds a) a.network_id ≡ ok tt
unfolding check_network_json NetworkStores.load
own_json a = ground arith

-- A mix of a directory that the guard lets pass and the installation passes too.
guard-IsMix :
    (install : NetworkInstall) (old d : NetworkFiles)
    → guard_existing_network old install.bundle.authority.network_id ≡ ok tt
    → IsMix old (installed install old) d
    → guard_existing_network d install.bundle.authority.network_id ≡ ok tt
unfolding guard_existing_network IsMix installed
guard-IsMix install old d h m =
    let authority = install.bundle.authority in
    let parts = both_ok _ _ h in
    let first : check_network_id d.network_id authority.network_id ≡ ok tt = elim m.0 [
      | inl e ↦ rw e parts.0
      | inr e ↦ rw e (own_id authority.network_id)
    ] in
    let second : check_network_json d.network_json authority.network_id ≡ ok tt = elim m.1 [
      | inl e ↦ rw e parts.1
      | inr e ↦ rw e (own_json authority)
    ] in
    rw (first, second) refl

gateways_same :
    (gateways : Option (List Text)) (file old : JsonFile (List Text))
    → (file ≡ old) ⊎ (file ≡ gateways_after gateways old)
    → gateways_after gateways file ≡ gateways_after gateways old
unfolding gateways_after
gateways_same none file old (inl e) = e
gateways_same none file old (inr e) = e
gateways_same (some gateways) file old m = refl

module _ ⦃w : Wire⦄ where
  staged_whole :
      (bundle : EnrollmentBundle) (gateways : Option (List Text))
      → MembershipCertificate.verify bundle.membership bundle.authority ≡ true
      → stage_and_validate (record { bundle = bundle; gateways = gateways }) all_whole
        ≡ ok (staged_files (record { bundle = bundle; gateways = gateways }) all_whole)
  unfolding stage_and_validate verify_staged staged_value stage_gateways NetworkStores.load
      NetworkStores.load_or_init NetworkStores.install_descriptor NetworkStores.save written
  staged_whole bundle none v =
      let same : (bundle.membership == bundle.membership) ≡ true = ground arith in
      let trusted : (bundle.authority == bundle.authority) ≡ true = ground arith in
      rw (same, v, trusted) refl
  staged_whole bundle (some gateways) v =
      let same : (bundle.membership == bundle.membership) ≡ true = ground arith in
      let trusted : (bundle.authority == bundle.authority) ≡ true = ground arith in
      rw (same, v, trusted) refl

  commit_whole :
      (bundle : EnrollmentBundle) (gateways : Option (List Text)) (d : NetworkFiles)
      → commit_staged
          (staged_names gateways)
          5
          (staged_files (record { bundle = bundle; gateways = gateways }) all_whole)
          d
        ≡ (ok tt, installed (record { bundle = bundle; gateways = gateways }) d)
  unfolding commit_staged staged_names staged_files installed gateways_after rename stage_gateways
      NetworkStores.load_or_init NetworkStores.install_descriptor NetworkStores.save written
  commit_whole bundle none d = refl
  commit_whole bundle (some gateways) d = refl

  whole_install :
      (directory : NetworkFiles) (install : NetworkInstall)
      → guard_existing_network directory install.bundle.authority.network_id ≡ ok tt
      → MembershipCertificate.verify install.bundle.membership install.bundle.authority ≡ true
      → install_network directory install all_whole 5 ≡ (ok tt, installed install directory)
  unfolding install_network
  whole_install directory install g v =
      rw (g, staged_whole install.bundle install.gateways v)
        (unfold commit_result in commit_whole install.bundle install.gateways directory)

  installed-IsMix :
      (install : NetworkInstall) (old d : NetworkFiles)
      → IsMix old (installed install old) d
      → installed install d ≡ installed install old
  unfolding IsMix installed
  installed-IsMix install old d m =
      rw (gateways_same install.gateways d.gateways_json old.gateways_json m.4) refl

  -- After an installation, wherever its writes failed and its renames stopped, the same installation
  -- with whole writes and all of its renames succeeds and leaves the complete network, when the
  -- directory's network files could be read before and belonged to no other network, and the bundle's
  -- membership verifies.
  pub install_network_again :
      (directory : NetworkFiles) (install : NetworkInstall) (writes : StageWrites) (n : ℕ)
      → guard_existing_network directory install.bundle.authority.network_id ≡ ok tt
      → MembershipCertificate.verify install.bundle.membership install.bundle.authority ≡ true
      → install_network (install_network directory install writes n).1 install all_whole 5
        ≡ (ok tt, installed install directory)
  install_network_again directory install writes n g v =
      let m = install_network-IsMix directory install writes n in
      let after = (install_network directory install writes n).1 in
      whole_install after install (guard-IsMix install directory after g m) v
      ∙ ap (λ d. (ok tt, d)) (installed-IsMix install directory after m)
