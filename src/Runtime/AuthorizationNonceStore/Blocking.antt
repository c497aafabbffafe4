-- ===== src/Runtime/AuthorizationNonceStore/Blocking.antt =====
-- crates/misaka-runtime/src/authorization_nonce_store.rs: when a file blocks a nonce.
use misaka.Prelude.{
  ℕ, ◌≤◌, ◌≡◌, Bytes, Bool, true, false, ◌&&◌, List, [], ◌∷◌, ◌++◌, ◌==◌, nat_eq, bytes_eq, leb,
  any, arith,
}
use misaka.Prelude.Result.{is_ok}
use misaka.Core.Types.{NetworkId, CommandAuthorization, network_id_eq}
use misaka.Runtime.JsonFile.{JsonFile, missing, holds, garbled, Write}
use misaka.Runtime.AuthorizationNonceStore.{
  NonceEntry, load, live, is_used, record_in, record_nonce,
}

-- An entry of that nonce that lasts to `until`.
abbrev pub blocks : NetworkId → Bytes → ℕ → NonceEntry → Bool
blocks network nonce until e =
    (e.network_id == network && e.nonce == nonce) && leb until e.expires_at

-- The file does not read, or has such an entry.
unfoldable pub IsBlocking : NetworkId → Bytes → ℕ → JsonFile (List NonceEntry) → Type 0
IsBlocking network nonce until missing = ⊥
IsBlocking network nonce until (holds entries) = any (blocks network nonce until) entries ≡ true
IsBlocking network nonce until garbled = Unit

module _ (network : NetworkId) (nonce : Bytes) (until : ℕ) where
  pub live-blocks :
      (entries : List NonceEntry) (now : ℕ)
      → now ≤ until
      → any (blocks network nonce until) entries ≡ true
      → any (blocks network nonce until) (live entries now) ≡ true
  unfolding live
  live-blocks [] now h k = k
  live-blocks (e ∷ es) now h k = ground (arith, live-blocks es now h)

  pub append-blocks :
      (entries more : List NonceEntry)
      → any (blocks network nonce until) entries ≡ true
      → any (blocks network nonce until) (entries ++ more) ≡ true
  append-blocks [] more k = absurd (ground arith)
  append-blocks (e ∷ es) more k = ground (arith, append-blocks es more)

  blocks-used :
      (entries : List NonceEntry) (a : CommandAuthorization)
      → a.network_id ≡ network
      → a.nonce ≡ nonce
      → any (blocks network nonce until) entries ≡ true
      → is_used entries a ≡ true
  unfolding is_used
  blocks-used [] a p q k = k
  blocks-used (e ∷ es) a p q k = ground (arith, blocks-used es a p q)

  kept_used :
      (entries : List NonceEntry) (a : CommandAuthorization) (now : ℕ)
      → a.network_id ≡ network
      → a.nonce ≡ nonce
      → now ≤ until
      → any (blocks network nonce until) entries ≡ true
      → is_used (live entries now) a ≡ true
  kept_used entries a now p q h k =
      blocks-used (live entries now) a p q (live-blocks entries now h k)

  pub blocked :
      (file : JsonFile (List NonceEntry)) (a : CommandAuthorization) (now : ℕ)
      (write : Write (List NonceEntry))
      → IsBlocking network nonce until file
      → a.network_id ≡ network
      → a.nonce ≡ nonce
      → now ≤ until
      → is_ok (record_nonce file a now write).0 ≡ false
  unfolding IsBlocking record_nonce record_in load
  blocked missing a now write b p q h = absurd b
  blocked garbled a now write b p q h = ground arith
  blocked (holds entries) a now write b p q h = ground (arith, kept_used entries a now p q h b)
