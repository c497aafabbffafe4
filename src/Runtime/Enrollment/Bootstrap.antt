-- ===== src/Runtime/Enrollment/Bootstrap.antt =====
-- crates/misaka-runtime/src/enrollment.rs: what the sort and the dedup of the bootstrap records do.
use misaka.Prelude.{
  ℕ, ◌≤◌, ◌≡◌, refl, ap, ◌∙◌, subst, inl, inr, Bool, ◌||◌, List, [], ◌∷◌, map, ◌==◌, nat_eq, leb,
  any, All, Ascends, IsIncreasing, Bool-cases, arith,
}
use misaka.Core.Types.{PeerRecord, sister_id_eq}
use misaka.Runtime.Enrollment.{
  EnrollmentServer, insert_by_sister, sort_by_sister, dedup_after, dedup_by_sister, bootstrap,
}

abbrev pub number_of : PeerRecord → ℕ
number_of r = r.sister_id.number

-- The list has a record of that Sister.
abbrev pub has_sister : ℕ → List PeerRecord → Bool
has_sister k rs = any (λ r. number_of r == k) rs

Rises : ℕ → List PeerRecord → Type 0
Rises low [] = Unit
Rises low (r ∷ rs) = (low ≤ number_of r) × Rises (number_of r) rs

insert-Rises :
    (low : ℕ) (r : PeerRecord) (rs : List PeerRecord)
    → low ≤ number_of r
    → Rises low rs
    → Rises low (insert_by_sister r rs)
unfolding Rises insert_by_sister
insert-Rises low r [] h k = (h, tt)
insert-Rises low r (s ∷ ss) h k = elim (Bool-cases (leb (number_of r) (number_of s))) [
  | inl p ↦ rw p (h, (ground arith, k.1))
  | inr p ↦ rw p (k.0, insert-Rises (number_of s) r ss (ground arith) k.1)
]

sort-Rises : (rs : List PeerRecord) → Rises 0 (sort_by_sister rs)
unfolding Rises sort_by_sister
sort-Rises [] = tt
sort-Rises (r ∷ rs) = insert-Rises 0 r (sort_by_sister rs) (omega arith) (sort-Rises rs)

dedup-Ascends :
    (kept : PeerRecord) (rs : List PeerRecord)
    → Rises (number_of kept) rs
    → Ascends (number_of kept) (map number_of (dedup_after kept rs))
unfolding Rises dedup_after
dedup-Ascends kept [] h = tt
dedup-Ascends kept (r ∷ rs) h = elim (Bool-cases (r.sister_id == kept.sister_id)) [
  | inl p ↦
      let e : number_of r ≡ number_of kept = ground arith in
      rw p (dedup-Ascends kept rs (subst (λ n. Rises n rs) e h.1))
  | inr p ↦ rw p (ground arith, dedup-Ascends r rs h.1)
]

dedup_sorted :
    (rs : List PeerRecord) → Rises 0 rs → IsIncreasing (map number_of (dedup_by_sister rs))
unfolding Rises dedup_by_sister
dedup_sorted [] h = tt
dedup_sorted (r ∷ rs) h = dedup-Ascends r rs h.1

-- The records that the Authority hands out stand in strictly ascending order of their Sisters, so
-- that there is one for each.
pub bootstrap-IsIncreasing : (s : EnrollmentServer) → IsIncreasing (map number_of (bootstrap s))
unfolding bootstrap
bootstrap-IsIncreasing s = dedup_sorted _ (sort-Rises (s.locator ∷ s.extra_bootstrap))

module _ (k : ℕ) where
  insert-has :
      (r : PeerRecord) (rs : List PeerRecord)
      → has_sister k (insert_by_sister r rs) ≡ has_sister k (r ∷ rs)
  unfolding insert_by_sister
  insert-has r [] = refl
  insert-has r (s ∷ ss) = ground (arith, insert-has r ss)

  sort-has : (rs : List PeerRecord) → has_sister k (sort_by_sister rs) ≡ has_sister k rs
  unfolding sort_by_sister
  sort-has [] = refl
  sort-has (r ∷ rs) =
      insert-has r (sort_by_sister rs) ∙ ap (λ b. (number_of r == k) || b) (sort-has rs)

  dedup_after-has :
      (kept : PeerRecord) (rs : List PeerRecord)
      → has_sister k (kept ∷ dedup_after kept rs) ≡ has_sister k (kept ∷ rs)
  unfolding dedup_after
  dedup_after-has kept [] = refl
  dedup_after-has kept (r ∷ rs) = ground (arith, dedup_after-has kept rs, dedup_after-has r rs)

  dedup-has : (rs : List PeerRecord) → has_sister k (dedup_by_sister rs) ≡ has_sister k rs
  unfolding dedup_by_sister
  dedup-has [] = refl
  dedup-has (r ∷ rs) = dedup_after-has r rs

  -- They are of the same Sisters as the Authority's locator and its extra records together.
  pub bootstrap-has_sister :
      (s : EnrollmentServer)
      → has_sister k (bootstrap s) ≡ has_sister k (s.locator ∷ s.extra_bootstrap)
  unfolding bootstrap
  bootstrap-has_sister s = dedup-has _ ∙ sort-has (s.locator ∷ s.extra_bootstrap)

module _ {κ} (P : PeerRecord → Type κ) where
  insert-All :
      (r : PeerRecord) (rs : List PeerRecord) → P r → All P rs → All P (insert_by_sister r rs)
  unfolding insert_by_sister
  insert-All r [] h k = (h, tt)
  insert-All r (s ∷ ss) h k = elim (Bool-cases (leb (number_of r) (number_of s))) [
    | inl p ↦ rw p (h, k)
    | inr p ↦ rw p (k.0, insert-All r ss h k.1)
  ]

  sort-All : (rs : List PeerRecord) → All P rs → All P (sort_by_sister rs)
  unfolding sort_by_sister
  sort-All [] h = tt
  sort-All (r ∷ rs) h = insert-All r (sort_by_sister rs) h.0 (sort-All rs h.1)

  dedup_after-All :
      (kept : PeerRecord) (rs : List PeerRecord) → All P rs → All P (dedup_after kept rs)
  unfolding dedup_after
  dedup_after-All kept [] h = tt
  dedup_after-All kept (r ∷ rs) h = elim (Bool-cases (r.sister_id == kept.sister_id)) [
    | inl p ↦ rw p (dedup_after-All kept rs h.1)
    | inr p ↦ rw p (h.0, dedup_after-All r rs h.1)
  ]

  dedup-All : (rs : List PeerRecord) → All P rs → All P (dedup_by_sister rs)
  unfolding dedup_by_sister
  dedup-All [] h = tt
  dedup-All (r ∷ rs) h = (h.0, dedup_after-All r rs h.1)

  -- What holds of the locator and of the extra records holds of every record handed out.
  pub bootstrap-All :
      (s : EnrollmentServer) → P s.locator → All P s.extra_bootstrap → All P (bootstrap s)
  unfolding bootstrap
  bootstrap-All s h k = dedup-All _ (sort-All (s.locator ∷ s.extra_bootstrap) (h, k))
