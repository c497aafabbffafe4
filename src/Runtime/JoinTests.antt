-- ===== src/Runtime/JoinTests.antt =====
-- crates/misaka-runtime: the theorems on the installation of a network at concrete files.
use misaka.Prelude.{◌≡◌, refl, some, [], ◌∷◌}
use misaka.Prelude.Result.{ok}
use misaka.Runtime.JsonFile.{garbled, torn}
use misaka.Runtime.NetworkStores
use misaka.Runtime.JoinTransaction.{
  NetworkInstall, StageWrites, empty_directory, guard_existing_network, install_network,
}
use misaka.Runtime.JoinTransaction.Outcome.{installed, IsMix, install_network-IsMix}
use misaka.Runtime.JoinTransaction.Retry.{all_whole, install_network_again}
use misaka.Fixtures.{toy, contracts, authority, certificate, locator}

abbrev joining : NetworkInstall
joining = record {
  bundle = record {
    authority = authority;
    membership = certificate;
    bootstrap_records = locator ∷ [];
  };
  gateways = some ((103 ∷ []) ∷ []);
}

abbrev torn_membership : StageWrites
torn_membership = record all_whole { membership_bin = torn garbled }

install_network-IsMix_example :
    IsMix empty_directory
      (installed joining empty_directory)
      (install_network empty_directory joining torn_membership 5).1
install_network-IsMix_example = install_network-IsMix empty_directory joining torn_membership 5

-- The third rename fails.
install_network_again_example :
    install_network (install_network empty_directory joining all_whole 2).1 joining all_whole 5
    ≡ (ok tt, installed joining empty_directory)
install_network_again_example =
    install_network_again empty_directory joining all_whole 2
      (unfold guard_existing_network NetworkStores.load in refl) (unfold contracts in refl)
