-- ===== src/Runtime/JsonFile.antt =====
-- A file of the runtime's stores, as its reader sees it: serde_json and std::fs are behind it.
use misaka.Prelude.{◌≡◌, ◌⊎◌}

-- There is no file, a file that reads as a value, or one that does not.
pub data JsonFile {ℓ} (A : Type ℓ) : Type ℓ where
  missing : JsonFile A
  holds : A → JsonFile A
  garbled : JsonFile A

-- What `fs::write` does: the whole text, or an error with something left in the file.
pub data Write {ℓ} (A : Type ℓ) : Type ℓ where
  whole : Write A
  torn : JsonFile A → Write A

unfoldable pub written {ℓ} : {A : Type ℓ} → A → Write A → JsonFile A
written new whole = holds new
written new (torn left) = left

-- A write that fails leaves the old file, the new one, or one that does not read.
unfoldable pub IsSafe {ℓ} : {A : Type ℓ} → JsonFile A → A → Write A → Type ℓ
IsSafe old new whole = Unit
IsSafe old new (torn left) = (left ≡ old) ⊎ ((left ≡ holds new) ⊎ (left ≡ garbled))
