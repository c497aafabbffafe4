-- ===== src/Runtime/CopyTests.antt =====
-- crates/misaka-cli/src/main.rs, crates/misaka-runtime/src/runtime.rs: a resumable copy of three bytes.
use misaka.Prelude.{◌≡◌, refl, Bytes, none, some, [], ◌∷◌, arith}
use misaka.Prelude.Result.{err}
use misaka.Core.Transfer.{TransferV1Request}
use misaka.Runtime.JsonFile.{missing, holds}
use misaka.Runtime.TransferV1.{TransferV1State, PartSite, runs, before_save, after_save, bad_resume}
use misaka.Runtime.TransferV1.Copy.{run_copy_v1, attempts}
use misaka.Runtime.TransferV1.Resumed.{copy_resumed}
use misaka.Runtime.TransferV1.Misreported.{copy_misreported}
use misaka.Fixtures.{toy}

abbrev file : Bytes
file = 1 ∷ 2 ∷ 3 ∷ []

abbrev request : TransferV1Request
request = record {
  destination = [];
  size = 3;
  digest = toy.sha256 file;
  chunk_size = 65536;
  authorization = none;
}

abbrev empty_site : PartSite
empty_site = record { part = none; state = missing; destination = none }

copy_resumed_example :
    (run_copy_v1 (runs ∷ runs ∷ runs ∷ []) request file (
      attempts ((before_save ∷ []) ∷ (after_save ∷ []) ∷ []) request file empty_site)).1.destination
    ≡ some file
copy_resumed_example =
    copy_resumed file request ((before_save ∷ []) ∷ (after_save ∷ []) ∷ []) empty_site refl refl
      refl refl (omega arith)

abbrev saved : TransferV1State
saved = record { size = 3; digest = toy.sha256 file; chunk_size = 65536; offset = 3 }

-- Such a site is what a copy leaves that is cut off after its last chunk is saved.
saved_whole :
    attempts ((after_save ∷ []) ∷ []) request file empty_site
    ≡ record { part = some file; state = holds saved; destination = none }
unfolding attempts misaka.Prelude.ℕ_discrete misaka.Runtime.Transfer.Part.slice
    misaka.Prelude.Bytes-discrete misaka.Core.Transfer.transfer_digest
saved_whole = refl

copy_misreported_example :
    ((run_copy_v1 [] request file
        (record { part = some file; state = holds saved; destination = none })).0
      ≡ err bad_resume)
    × ((run_copy_v1 [] request file
          (record { part = some file; state = holds saved; destination = none })).1.destination
        ≡ some file)
unfolding misaka.Runtime.TransferV1.is_same misaka.Prelude.Bytes-discrete
copy_misreported_example =
    copy_misreported file request []
      (record { part = some file; state = holds saved; destination = none }) saved refl refl refl
      (omega arith) refl refl refl refl refl
