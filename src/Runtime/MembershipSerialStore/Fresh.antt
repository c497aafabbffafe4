-- ===== src/Runtime/MembershipSerialStore/Fresh.antt =====
-- crates/misaka-runtime/src/membership_serial_store.rs: no serial is issued twice.
use misaka.Prelude.{
  ℕ, ◌+◌, ◌≤◌, ◌<◌, ◌≡◌, refl, sym, ap, ◌∙◌, subst, ◌⊎◌, inl, inr, Text, Option, none, some, List,
  [], ◌∷◌, u64_max, to_string, parse-to_string, length, Ascends, arith, Option-cases,
}
use misaka.Prelude.Result.{ok, err, Result-cases}
use misaka.Runtime.MembershipSerialStore.{
  IoError, whole, torn, MembershipSerialStore, read, or_zero, open_store, saturating_succ, allocate,
  Event, allocates, restarts, Directory, restart, to_option, allocated, step, prepend, serials,
}

-- A write that fails leaves the old text, the new text, or text that is no number.
unfoldable pub IsSafe : Directory → Event → Type 0
IsSafe d restarts = Unit
IsSafe d (allocates whole) = Unit
IsSafe d (allocates (torn left)) =
    (s : MembershipSerialStore)
    → d.process ≡ some s
    → (left ≡ d.content)
      ⊎ ((left ≡ some (to_string (saturating_succ s.state)))
          ⊎ ((e : IoError) × (read left ≡ err e)))

unfoldable pub AllSafe : Directory → List Event → Type 0
AllSafe d [] = Unit
AllSafe d (e ∷ es) = IsSafe d e × AllSafe (step d e).1 es

-- Everything that the file and the process hold lies between the serials issued and `bound`.
record Holds (high bound : ℕ) (content : Option Text) (process : Option MembershipSerialStore)
    : Type 0 where
  marked : (m : Option ℕ) → read content ≡ ok m → (high ≤ or_zero m) × (or_zero m ≤ bound)
  running : (s : MembershipSerialStore) → process ≡ some s → (high ≤ s.state) × (s.state ≤ bound)

abbrev Inv : ℕ → ℕ → Directory → Type 0
Inv high bound d = Holds high bound d.content d.process

read-to_string : (n : ℕ) → n ≤ u64_max → read (some (to_string n)) ≡ ok (some n)
unfolding read
read-to_string n h = rw (parse-to_string n h, read) refl

ok-to_option :
    (content : Option Text) (s : MembershipSerialStore)
    → to_option (open_store content) ≡ some s
    → (m : Option ℕ) × (read content ≡ ok m) × (s.state ≡ or_zero m) × (s.file ≡ content)
unfolding to_option open_store
ok-to_option content s h = elim (Result-cases (read content)) [
  | inl p ↦ (p.0, p.1, ground (arith, p.1), ground (arith, p.1))
  | inr p ↦ absurd (ground (arith, p.1))
]

restart-Inv :
    (high bound : ℕ) (d : Directory) → Inv high bound d → Inv high bound (restart d.content)
unfolding restart
restart-Inv high bound d h = record {
  marked = h.marked;
  running = λ s e.
      let k = ok-to_option d.content s e in
      let b = h.marked k.0 k.1 in (ground (arith, k.2), ground (arith, k.2));
}

-- After the next serial is published.
whole-Inv :
    (bound n : ℕ)
    → n ≤ bound
    → bound < u64_max
    → Inv (n + 1) (bound + 1) (record {
      content = some (to_string (n + 1));
      process = some (record { file = some (to_string (n + 1)); state = n + 1 });
    })
unfolding or_zero
whole-Inv bound n h k =
    let e = read-to_string (n + 1) (omega arith) in
    record {
      marked = λ m p. (ground (arith, e), ground (arith, e));
      running = λ s p. (ground arith, ground arith);
    }

saturating_succ-eq : (n : ℕ) → n < u64_max → saturating_succ n ≡ n + 1
unfolding saturating_succ
saturating_succ-eq n h = omega arith

wider : (high bound : ℕ) (d : Directory) → Inv high bound d → Inv high (bound + 1) d
wider high bound d h = record {
  marked = λ m e. let k = h.marked m e in (k.0, omega (arith, k.1));
  running = λ s e. let k = h.running s e in (k.0, omega (arith, k.1));
}

-- After a failed write the process is as before, and the file is safe.
torn-Inv :
    (high bound : ℕ) (d : Directory) (left : Option Text) (s : MembershipSerialStore)
    → Inv high bound d
    → bound < u64_max
    → d.process ≡ some s
    → (left ≡ d.content)
      ⊎ ((left ≡ some (to_string (saturating_succ s.state)))
          ⊎ ((e : IoError) × (read left ≡ err e)))
    → Inv high (bound + 1) (record { content = left; process = some (record s { file = left }) })
unfolding or_zero
torn-Inv high bound d left s h lt p safe =
    let b = h.running s p in
    let r = read-to_string (s.state + 1) (omega (arith, b.1)) in
    record {
      marked = λ m e. elim safe [
        | inl q ↦ let k = h.marked m (ap read (sym q) ∙ e) in (k.0, omega (arith, k.1))
        | inr (inl q) ↦
            let a : saturating_succ s.state ≡ s.state + 1 =
              saturating_succ-eq s.state (omega (arith, b.1)) in
            let t : read left ≡ ok (some (s.state + 1)) = ap read q ∙ rw a r in
            (ground (arith, b.0, t), ground (arith, b.1, t))
        | inr (inr (x, q)) ↦ absurd (ground (arith, q, e))
      ];
      running = λ t e. (ground (arith, b.0), ground (arith, b.1));
    }

-- A step issues nothing, or a serial above those issued before.
Step-Inv : ℕ → ℕ → Option ℕ × Directory → Type 0
Step-Inv high bound (none, d) = Inv high bound d
Step-Inv high bound (some n, d) = (high < n) × Inv n bound d

issued-Inv :
    (high bound : ℕ) (s : MembershipSerialStore)
    → high ≤ s.state
    → s.state ≤ bound
    → bound < u64_max
    → Step-Inv high (bound + 1) (allocated (allocate s whole))
unfolding Step-Inv allocated allocate to_option
issued-Inv high bound s l b lt =
    let a = saturating_succ-eq s.state (omega arith) in
    rw a (omega arith, whole-Inv bound s.state b lt)

step-Inv :
    (high bound : ℕ) (d : Directory) (e : Event)
    → Inv high bound d
    → bound < u64_max
    → IsSafe d e
    → Step-Inv high (bound + 1) (step d e)
unfolding Step-Inv step IsSafe
step-Inv high bound d restarts h lt safe = wider high bound _ (restart-Inv high bound d h)
step-Inv high bound d (allocates whole) h lt safe = elim (Option-cases d.process) [
  | inl p ↦ rw p (subst (Holds high (bound + 1) d.content) p (wider high bound d h))
  | inr (s, p) ↦ let b = h.running s p in rw (p, step) (issued-Inv high bound s b.0 b.1 lt)
]
step-Inv high bound d (allocates (torn left)) h lt safe = elim (Option-cases d.process) [
  | inl p ↦ rw p (subst (Holds high (bound + 1) d.content) p (wider high bound d h))
  | inr (s, p) ↦
      let t = torn-Inv high bound d left s h lt p (safe s p) in
      rw (p, step) (unfold allocated allocate to_option in t)
]

next-Ascends :
    (high bound : ℕ) (rest : List ℕ) (r : Option ℕ × Directory)
    → Step-Inv high bound r
    → ((n : ℕ) → Inv n bound r.1 → Ascends n rest)
    → Ascends high (prepend r.0 rest)
unfolding Step-Inv prepend
next-Ascends high bound rest (none, d) h k = k high h
next-Ascends high bound rest (some n, d) h k = (h.0, k n h.1)

steps-Ascends :
    (high bound : ℕ) (d : Directory) (events : List Event)
    → bound + length events ≤ u64_max
    → Inv high bound d
    → AllSafe d events
    → Ascends high (serials d events)
unfolding AllSafe serials prepend Step-Inv length
steps-Ascends high bound d [] room h safe = tt
steps-Ascends high bound d (e ∷ es) room h safe =
    next-Ascends high (bound + 1) (serials (step d e).1 es) (step d e)
      (step-Inv high bound d e h (omega arith) safe.0)
      (λ high' inv. steps-Ascends high' (bound + 1) _ es (omega arith) inv safe.1)

-- A life that starts at the persisted serial, and ends before the serials run out, issues them in
-- strictly ascending order above that serial, across failed writes and restarts, when a write that
-- fails leaves the old text, the new text or no number.
pub serials-Ascends :
    (content : Option Text) (mark : Option ℕ) (events : List Event)
    → read content ≡ ok mark
    → or_zero mark + length events ≤ u64_max
    → AllSafe (restart content) events
    → Ascends (or_zero mark) (serials (restart content) events)
unfolding restart
serials-Ascends content mark events e room safe =
    let start : Inv (or_zero mark) (or_zero mark) (restart content) = record {
      marked = λ m f. (ground (arith, e, f), ground (arith, e, f));
      running = λ s f.
          let k = ok-to_option content s f in
          (ground (arith, e, k.1, k.2), ground (arith, e, k.1, k.2));
    } in
    steps-Ascends (or_zero mark) (or_zero mark) (restart content) events room start safe
