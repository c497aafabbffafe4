-- ===== src/Runtime/AuthorizationNonceStore/Replay.antt =====
-- crates/misaka-runtime/src/authorization_nonce_store.rs: a command authorization is used once.
use misaka.Prelude.{
  ℕ, ◌≤◌, ◌≡◌, refl, sym, subst, inl, inr, Bytes, true, false, List, [], ◌∷◌, ◌++◌, ◌==◌, nat_eq,
  bytes_eq, any, Bool-cases, arith,
}
use misaka.Prelude.Result.{Result, ok, err, is_ok}
use misaka.Core.Types.{NetworkId, CommandAuthorization, network_id_eq}
use misaka.Runtime.JsonFile.{JsonFile, missing, holds, garbled, Write, whole, torn, written, IsSafe}
use misaka.Runtime.AuthorizationNonceStore.{
  NonceEntry, AuthorizationNonceStoreError, load, live, is_used, with_nonce, write_result,
  record_in, record_nonce,
}
use misaka.Runtime.AuthorizationNonceStore.Blocking.{
  blocks, IsBlocking, live-blocks, append-blocks, blocked,
}

-- One call, with the clock and what the write does.
pub record Call : Type 0 where
  pub authorization : CommandAuthorization
  pub now : ℕ
  pub write : Write (List NonceEntry)

unfoldable pub step : JsonFile (List NonceEntry) → Call → JsonFile (List NonceEntry)
step file c = (record_nonce file c.authorization c.now c.write).1

unfoldable pub run : JsonFile (List NonceEntry) → List Call → JsonFile (List NonceEntry)
unfolding step
run file [] = file
run file (c ∷ cs) = run (step file c) cs

-- Each call is made by the deadline, and a write of it that fails leaves the old file, the new one or
-- one that does not read.
unfoldable pub AllSafe : ℕ → JsonFile (List NonceEntry) → List Call → Type 0
AllSafe until file [] = Unit
AllSafe until file (c ∷ cs) =
    (c.now ≤ until)
    × ((entries : List NonceEntry)
        → load file ≡ ok entries
        → IsSafe file (with_nonce (live entries c.now) c.authorization) c.write)
    × AllSafe until (step file c) cs

module _ (network : NetworkId) (nonce : Bytes) (until : ℕ) where
  written-IsBlocking :
      (old : JsonFile (List NonceEntry)) (new : List NonceEntry) (write : Write (List NonceEntry))
      → IsBlocking network nonce until old
      → any (blocks network nonce until) new ≡ true
      → IsSafe old new write
      → IsBlocking network nonce until (written new write)
  unfolding IsBlocking written IsSafe
  written-IsBlocking old new whole b k s = k
  written-IsBlocking old new (torn left) b k (inl e) =
      subst (IsBlocking network nonce until) (sym e) b
  written-IsBlocking old new (torn left) b k (inr (inl e)) =
      subst (IsBlocking network nonce until) (sym e) k
  written-IsBlocking old new (torn left) b k (inr (inr e)) =
      subst (IsBlocking network nonce until) (sym e) tt

  record_in-IsBlocking :
      (entries : List NonceEntry) (c : Call)
      → IsBlocking network nonce until (holds entries)
      → c.now ≤ until
      → IsSafe (holds entries) (with_nonce (live entries c.now) c.authorization) c.write
      → IsBlocking network nonce until
          (record_in (holds entries) (ok entries) c.authorization c.now c.write).1
  unfolding record_in IsBlocking with_nonce
  record_in-IsBlocking entries c b h s =
      elim (Bool-cases (is_used (live entries c.now) c.authorization)) [
        | inl t ↦ rw t b
        | inr t ↦ rw t (
            written-IsBlocking (holds entries) _ c.write b
              (append-blocks network nonce until (live entries c.now) _
                (live-blocks network nonce until entries c.now h b))
              s)
      ]

  loaded-IsBlocking :
      (file : JsonFile (List NonceEntry)) (c : Call)
      → IsBlocking network nonce until file
      → c.now ≤ until
      → ((entries : List NonceEntry)
          → load file ≡ ok entries
          → IsSafe file (with_nonce (live entries c.now) c.authorization) c.write)
      → IsBlocking network nonce until (record_in file (load file) c.authorization c.now c.write).1
  unfolding load
  loaded-IsBlocking missing c b h s = unfold IsBlocking in absurd b
  loaded-IsBlocking (holds entries) c b h s = record_in-IsBlocking entries c b h (s entries refl)
  loaded-IsBlocking garbled c b h s = unfold record_in in b

  step-IsBlocking :
      (file : JsonFile (List NonceEntry)) (c : Call)
      → IsBlocking network nonce until file
      → c.now ≤ until
      → ((entries : List NonceEntry)
          → load file ≡ ok entries
          → IsSafe file (with_nonce (live entries c.now) c.authorization) c.write)
      → IsBlocking network nonce until (step file c)
  unfolding step record_nonce
  step-IsBlocking file c b h s =
      elim (Bool-cases (c.authorization.network_id == c.authorization.membership.network_id)) [
        | inl t ↦ rw (t, step) (loaded-IsBlocking file c b h s)
        | inr t ↦ rw (t, step) b
      ]

  run-IsBlocking :
      (file : JsonFile (List NonceEntry)) (cs : List Call)
      → IsBlocking network nonce until file
      → AllSafe until file cs
      → IsBlocking network nonce until (run file cs)
  unfolding run AllSafe
  run-IsBlocking file [] b s = b
  run-IsBlocking file (c ∷ cs) b s =
      run-IsBlocking (step file c) cs (step-IsBlocking file c b s.0 s.1) s.2

  append_new :
      (entries : List NonceEntry) (e : NonceEntry)
      → blocks network nonce until e ≡ true
      → any (blocks network nonce until) (entries ++ e ∷ []) ≡ true
  append_new [] e h = ground (arith, h)
  append_new (x ∷ xs) e h = ground (arith, append_new xs e h)

new-IsBlocking :
    (entries : List NonceEntry) (a : CommandAuthorization) (write : Write (List NonceEntry))
    → write_result write ≡ ok tt
    → IsBlocking a.network_id a.nonce a.expires_at (written (with_nonce entries a) write)
unfolding written write_result IsBlocking with_nonce
new-IsBlocking entries a whole h =
    append_new a.network_id a.nonce a.expires_at entries _ (ground arith)
new-IsBlocking entries a (torn left) h = cc

recorded-IsBlocking :
    (file : JsonFile (List NonceEntry))
    (loaded : Result AuthorizationNonceStoreError (List NonceEntry)) (a : CommandAuthorization)
    (now : ℕ) (write : Write (List NonceEntry))
    → (record_in file loaded a now write).0 ≡ ok tt
    → IsBlocking a.network_id a.nonce a.expires_at (record_in file loaded a now write).1
unfolding record_in
recorded-IsBlocking file (err e) a now write h = cc
recorded-IsBlocking file (ok entries) a now write h =
    elim (Bool-cases (is_used (live entries now) a)) [
      | inl t ↦ absurd (ground (arith, t, h))
      | inr t ↦ rw t (new-IsBlocking (live entries now) a write (ground (arith, t, h)))
    ]

recorded :
    (file : JsonFile (List NonceEntry)) (a : CommandAuthorization) (now : ℕ)
    (write : Write (List NonceEntry))
    → (record_nonce file a now write).0 ≡ ok tt
    → IsBlocking a.network_id a.nonce a.expires_at (record_nonce file a now write).1
unfolding record_nonce
recorded file a now write h = elim (Bool-cases (a.network_id == a.membership.network_id)) [
  | inl t ↦ rw t (recorded-IsBlocking file (load file) a now write (ground (arith, t, h)))
  | inr t ↦ absurd (ground (arith, t, h))
]

-- Once a command authorization is recorded, its nonce is never accepted again up to its expiry, whatever
-- records come in between, when a write that fails leaves the old file, the new one or one that does
-- not read.
pub replayed_command :
    (file : JsonFile (List NonceEntry)) (a b : CommandAuthorization) (first later : ℕ)
    (write rewrite : Write (List NonceEntry)) (between : List Call)
    → (record_nonce file a first write).0 ≡ ok tt
    → AllSafe a.expires_at (record_nonce file a first write).1 between
    → b.network_id ≡ a.network_id
    → b.nonce ≡ a.nonce
    → later ≤ a.expires_at
    → is_ok (record_nonce (run (record_nonce file a first write).1 between) b later rewrite).0
      ≡ false
replayed_command file a b first later write rewrite between h s p q l =
    blocked a.network_id a.nonce a.expires_at _ b later rewrite
      (run-IsBlocking a.network_id a.nonce a.expires_at _ between (recorded file a first write h) s)
      p q l
