-- ===== src/Runtime/AuthorizationNonceStore.antt =====
-- crates/misaka-runtime/src/authorization_nonce_store.rs: the command nonces that were used. The caller
-- holds a lock around `record`, so each call is one step.
mod Blocking
pub mod Replay
use misaka.Prelude.{
  ℕ, Bytes, Bool, true, false, not, ◌&&◌, List, [], ◌∷◌, ◌++◌, ◌==◌, nat_eq, bytes_eq, leb, any,
  retain, if◌then◌else◌,
}
use misaka.Prelude.Result.{Result, ok, err}
use misaka.Core.Types.{NetworkId, CommandAuthorization, network_id_eq}
use misaka.Runtime.JsonFile.{JsonFile, missing, holds, garbled, Write, whole, torn, written}

pub record NonceEntry : Type 0 where
  pub network_id : NetworkId
  pub nonce : Bytes
  pub expires_at : ℕ

pub data AuthorizationNonceStoreError : Type 0 where
  io json replay network_mismatch : AuthorizationNonceStoreError

unfoldable pub load :
    JsonFile (List NonceEntry) → Result AuthorizationNonceStoreError (List NonceEntry)
load missing = ok []
load (holds entries) = ok entries
load garbled = err json

unfoldable pub live : List NonceEntry → ℕ → List NonceEntry
live entries now = retain (λ e. leb now e.expires_at) entries

unfoldable pub is_used : List NonceEntry → CommandAuthorization → Bool
is_used entries a = any (λ e. e.network_id == a.network_id && e.nonce == a.nonce) entries

unfoldable pub with_nonce : List NonceEntry → CommandAuthorization → List NonceEntry
with_nonce entries a =
    entries
    ++ (record { network_id = a.network_id; nonce = a.nonce; expires_at = a.expires_at }) ∷ []

unfoldable pub write_result :
    Write (List NonceEntry) → Result AuthorizationNonceStoreError (Unit {0})
write_result whole = ok tt
write_result (torn left) = err io

-- AuthorizationNonceStore::record, from the entries on.
unfoldable pub record_in :
    JsonFile (List NonceEntry)
    → Result AuthorizationNonceStoreError (List NonceEntry)
    → CommandAuthorization
    → ℕ
    → Write (List NonceEntry)
    → Result AuthorizationNonceStoreError (Unit {0}) × JsonFile (List NonceEntry)
unfolding live is_used with_nonce write_result
record_in file (err e) a now write = (err e, file)
record_in file (ok entries) a now write =
    let kept = live entries now in
    if is_used kept a
    then (err replay, file)
    else (write_result write, written (with_nonce kept a) write)

unfoldable pub record_nonce :
    JsonFile (List NonceEntry)
    → CommandAuthorization
    → ℕ
    → Write (List NonceEntry)
    → Result AuthorizationNonceStoreError (Unit {0}) × JsonFile (List NonceEntry)
unfolding load record_in
record_nonce file a now write =
    if not (a.network_id == a.membership.network_id)
    then (err network_mismatch, file)
    else record_in file (load file) a now write
