-- ===== src/Runtime/ContentStore.antt =====
-- crates/misaka-runtime/src/content_store.rs: the content-addressed store of verified payloads. A file
-- is its bytes, or `none` where there is none; the objects stand under their digests. An operation on a
-- file that is there succeeds, and a rename replaces its target.
use misaka.Prelude.{Bytes, Bool, false, Option, none, some, ◌==◌, bytes_eq, if◌then◌else◌}
use misaka.Prelude.Map.{Map, lookup, insert}
use misaka.Prelude.Result.{Result, ok, err}
use misaka.Core.Wire.{Wire}

pub data StoreError : Type 0 where
  not_found invalid_data : StoreError

abbrev pub ContentStore : Type 0
ContentStore = Map Bytes Bytes

module _ ⦃w : Wire⦄ where
  unfoldable pub is_object : Option Bytes → Bytes → Bool
  is_object none digest = false
  is_object (some content) digest = w.sha256 content == digest

  unfoldable pub contains : ContentStore → Bytes → Bool
  unfolding is_object
  contains store digest = is_object (lookup digest store) digest

  -- The partial file is moved into the store: an object that does not hash to its name is replaced.
  unfoldable pub commit_file :
      ContentStore → Bytes → Bytes → Result StoreError ContentStore × Option Bytes
  unfolding contains
  commit_file store content digest =
      if w.sha256 content == digest
      then (if contains store digest
          then (ok store, none)
          else (ok (insert digest content store), none))
      else (err invalid_data, some content)

  -- ContentStore::commit_verified_file: the store, and what is left of the partial file
  unfoldable pub commit_verified_file :
      ContentStore → Option Bytes → Bytes → Result StoreError ContentStore × Option Bytes
  unfolding commit_file
  commit_verified_file store none digest = (err not_found, none)
  commit_verified_file store (some content) digest = commit_file store content digest

  unfoldable pub copy_object : Option Bytes → Bytes → Result StoreError Bytes
  copy_object none digest = err not_found
  copy_object (some content) digest =
      if w.sha256 content == digest then ok content else err invalid_data

  -- ContentStore::materialize: what the destination then holds
  unfoldable pub materialize : ContentStore → Bytes → Result StoreError Bytes
  unfolding copy_object
  materialize store digest = copy_object (lookup digest store) digest
