-- ===== src/Runtime/RevocationStore/Permanent.antt =====
-- crates/misaka-runtime/src/revocation_store.rs: a revocation is found from then on.
use misaka.Prelude.{
  ℕ, ◌≡◌, ◌≢◌, refl, sym, subst, inl, inr, Bool, true, false, List, [], ◌∷◌, ◌++◌, nat_eq, any,
  Bool-cases, arith,
}
use misaka.Prelude.Result.{ok}
use misaka.Core.Types.{
  NetworkId, NetworkAuthority, MembershipKind, RevocationRecord, network_id_eq, membership_kind_eq,
}
use misaka.Core.RevocationRecord
use misaka.Core.Wire.{Wire}
use misaka.Runtime.JsonFile.{JsonFile, missing, holds, garbled, Write, whole, torn, written, IsSafe}
use misaka.Runtime.RevocationStore.{
  load, save, is_match, is_listed, append_to, append, search_records, is_revoked,
}

-- The file does not read, or lists that membership.
IsListing : NetworkId → MembershipKind → ℕ → JsonFile (List RevocationRecord) → Type 0
IsListing network kind serial missing = ⊥
IsListing network kind serial (holds records) = any (is_match network kind serial) records ≡ true
IsListing network kind serial garbled = Unit

-- One call, with what its write does.
pub record Call : Type 0 where
  pub authority : NetworkAuthority
  pub entry : RevocationRecord
  pub write : Write (List RevocationRecord)

module _ ⦃w : Wire⦄ where
  unfoldable pub step : JsonFile (List RevocationRecord) → Call → JsonFile (List RevocationRecord)
  step file c = (append file c.authority c.entry c.write).1

  unfoldable pub run :
      JsonFile (List RevocationRecord) → List Call → JsonFile (List RevocationRecord)
  unfolding step
  run file [] = file
  run file (c ∷ cs) = run (step file c) cs

  -- A write that fails leaves the old list, the new one, or a file that does not read.
  unfoldable pub AllSafe : JsonFile (List RevocationRecord) → List Call → Type 0
  AllSafe file [] = Unit
  AllSafe file (c ∷ cs) =
      ((records : List RevocationRecord)
        → load file ≡ ok records
        → IsSafe file (records ++ c.entry ∷ []) c.write)
      × AllSafe (step file c) cs

append-any :
    (p : RevocationRecord → Bool) (records more : List RevocationRecord)
    → any p records ≡ true
    → any p (records ++ more) ≡ true
append-any p [] more h = absurd (ground arith)
append-any p (r ∷ rs) more h = ground (arith, append-any p rs more)

append-last :
    (p : RevocationRecord → Bool) (records : List RevocationRecord) (r : RevocationRecord)
    → p r ≡ true
    → any p (records ++ r ∷ []) ≡ true
append-last p [] r h = ground (arith, h)
append-last p (x ∷ xs) r h = ground (arith, append-last p xs r h)

module _ (network : NetworkId) (kind : MembershipKind) (serial : ℕ) where
  saved-IsListing :
      (old : JsonFile (List RevocationRecord)) (new : List RevocationRecord)
      (write : Write (List RevocationRecord))
      → IsListing network kind serial old
      → any (is_match network kind serial) new ≡ true
      → IsSafe old new write
      → IsListing network kind serial (save new write).1
  unfolding save IsListing written IsSafe
  saved-IsListing old new whole b k s = k
  saved-IsListing old new (torn left) b k (inl e) = subst (IsListing network kind serial) (sym e) b
  saved-IsListing old new (torn left) b k (inr (inl e)) =
      subst (IsListing network kind serial) (sym e) k
  saved-IsListing old new (torn left) b k (inr (inr e)) =
      subst (IsListing network kind serial) (sym e) tt

  append_to-IsListing :
      (file : JsonFile (List RevocationRecord)) (r : RevocationRecord)
      (write : Write (List RevocationRecord))
      → IsListing network kind serial file
      → ((records : List RevocationRecord)
          → load file ≡ ok records
          → IsSafe file (records ++ r ∷ []) write)
      → IsListing network kind serial (append_to file (load file) r write).1
  unfolding load append_to
  append_to-IsListing missing r write b s = unfold IsListing in absurd b
  append_to-IsListing garbled r write b s = b
  append_to-IsListing (holds records) r write b s = elim (Bool-cases (is_listed records r)) [
    | inl t ↦ rw t b
    | inr t ↦ rw t (
        saved-IsListing (holds records) _ write b
          (append-any (is_match network kind serial) records _ (unfold IsListing in b))
          (s records refl))
  ]

  module _ ⦃w : Wire⦄ where
    run-IsListing :
        (file : JsonFile (List RevocationRecord)) (cs : List Call)
        → IsListing network kind serial file
        → AllSafe file cs
        → IsListing network kind serial (run file cs)
    unfolding run AllSafe step append
    run-IsListing file [] b s = b
    run-IsListing file (c ∷ cs) b s =
        run-IsListing (step file c) cs
          (elim (Bool-cases (RevocationRecord.verify c.entry c.authority)) [
            | inl t ↦ rw (t, step) (append_to-IsListing file c.entry c.write b s.0)
            | inr t ↦ rw (t, step) b
          ])
          s.1

    search-listed :
        (authority : NetworkAuthority) (records : List RevocationRecord)
        → any (is_match network kind serial) records ≡ true
        → search_records authority network kind serial records ≢ ok false
    unfolding search_records is_match
    search-listed authority [] h e = ground (arith, h)
    search-listed authority (r ∷ rs) h e = ground (arith, search-listed authority rs)

    listed-is_revoked :
        (file : JsonFile (List RevocationRecord)) (authority : NetworkAuthority)
        → IsListing network kind serial file
        → is_revoked file authority network kind serial ≢ ok false
    unfolding is_revoked IsListing load
    listed-is_revoked missing authority b = absurd b
    listed-is_revoked (holds records) authority b = search-listed authority records b
    listed-is_revoked garbled authority b = λ e. cc

added-IsListing :
    (records : List RevocationRecord) (r : RevocationRecord) (write : Write (List RevocationRecord))
    → (save (records ++ r ∷ []) write).0 ≡ ok tt
    → IsListing r.network_id r.membership_kind r.membership_serial
        (save (records ++ r ∷ []) write).1
unfolding save IsListing written is_match
added-IsListing records r whole h = append-last _ records r (ground arith)
added-IsListing records r (torn left) h = cc

appended-IsListing :
    (file : JsonFile (List RevocationRecord)) (r : RevocationRecord)
    (write : Write (List RevocationRecord))
    → (append_to file (load file) r write).0 ≡ ok tt
    → IsListing r.network_id r.membership_kind r.membership_serial
        (append_to file (load file) r write).1
unfolding load append_to
appended-IsListing missing r write h = added-IsListing [] r write (unfold is_listed in h)
appended-IsListing garbled r write h = cc
appended-IsListing (holds records) r write h = elim (Bool-cases (is_listed records r)) [
  | inl t ↦ rw t (unfold IsListing is_listed in t)
  | inr t ↦ rw t (added-IsListing records r write (ground (arith, t, h)))
]

module _ ⦃w : Wire⦄ where
  append-IsListing :
      (file : JsonFile (List RevocationRecord)) (authority : NetworkAuthority)
      (r : RevocationRecord) (write : Write (List RevocationRecord))
      → (append file authority r write).0 ≡ ok tt
      → IsListing r.network_id r.membership_kind r.membership_serial
          (append file authority r write).1
  unfolding append
  append-IsListing file authority r write h =
      elim (Bool-cases (RevocationRecord.verify r authority)) [
        | inl t ↦ rw t (appended-IsListing file r write (ground (arith, t, h)))
        | inr t ↦ absurd (ground (arith, t, h))
      ]

  -- Once a revocation is appended, a membership of its network, kind and serial is never reported as
  -- not revoked, whatever is appended later, when a write that fails leaves the old list, the new one or
  -- a file that does not read.
  pub revoked_forever :
      (file : JsonFile (List RevocationRecord)) (authority reader : NetworkAuthority)
      (r : RevocationRecord) (write : Write (List RevocationRecord)) (later : List Call)
      → (append file authority r write).0 ≡ ok tt
      → AllSafe (append file authority r write).1 later
      → is_revoked
          (run (append file authority r write).1 later)
          reader
          r.network_id
          r.membership_kind
          r.membership_serial
        ≢ ok false
  revoked_forever file authority reader r write later h s =
      listed-is_revoked r.network_id r.membership_kind r.membership_serial _ reader (
        run-IsListing r.network_id r.membership_kind r.membership_serial _ later
          (append-IsListing file authority r write h) s)
