-- ===== src/Prelude/Map.antt =====
-- `std::collections::HashMap`: an association list with one entry for each key. The order of
-- iteration is not specified by the library, so no statement depends on it.
use mathlib.Core.Path.{◌≡◌, refl}
use mathlib.Core.Logic.{inl, inr}
use mathlib.Core.Bool.{Bool, true}
use mathlib.Core.List.{List, [], ◌∷◌}
use mathlib.Core.Option.{Option, none, some}
use native.Mathlib.Omega.{arith}
use misaka.Prelude.Tests.{if◌then◌else◌, Eq, ◌==◌, Bool-cases}

abbrev pub Map {ℓ κ} : Type ℓ → Type κ → Type (ℓ ⊔ κ)
Map K V = List (K × V)

module _ {ℓ κ} {K : Type ℓ} {V : Type κ} where
  pub values : Map K V → List V
  values [] = []
  values ((k, v) ∷ m) = v ∷ values m

  -- HashMap::retain
  unfoldable pub retain : (K → V → Bool) → Map K V → Map K V
  retain p [] = []
  retain p ((k, v) ∷ m) = let rest = retain p m in if p k v then (k, v) ∷ rest else rest

module _ {ℓ κ} {K : Type ℓ} {V : Type κ} ⦃e : Eq K⦄ where
  -- HashMap::get
  unfoldable pub lookup : K → Map K V → Option V
  lookup key [] = none
  lookup key ((at, value) ∷ rest) =
      let further = lookup key rest in if at == key then some value else further

  -- HashMap::insert
  unfoldable pub insert : K → V → Map K V → Map K V
  insert key value [] = (key, value) ∷ []
  insert key value ((at, old) ∷ rest) =
      let further = insert key value rest in
      if at == key then (key, value) ∷ rest else (at, old) ∷ further

  -- HashMap::remove
  unfoldable pub remove : K → Map K V → Map K V
  remove key [] = []
  remove key ((at, value) ∷ rest) =
      let further = remove key rest in if at == key then further else (at, value) ∷ further

  pub lookup-insert :
      (new_key key : K) (value : V) (m : Map K V)
      → lookup key (insert new_key value m) ≡ (if new_key == key then some value else lookup key m)
  unfolding lookup insert
  lookup-insert new_key key value [] = refl
  lookup-insert new_key key value ((at, old) ∷ rest) =
      ground (arith, lookup-insert new_key key value rest)

  pub lookup-remove :
      (gone key : K) (m : Map K V)
      → lookup key (remove gone m) ≡ (if gone == key then none else lookup key m)
  unfolding lookup remove
  lookup-remove gone key [] = ground arith
  lookup-remove gone key ((at, value) ∷ rest) = ground (arith, lookup-remove gone key rest)

  -- What `retain` keeps is still found.
  pub lookup-retain :
      (p : K → V → Bool) (k : K) (v : V) (m : Map K V)
      → lookup k m ≡ some v
      → p k v ≡ true
      → lookup k (retain p m) ≡ some v
  unfolding lookup retain
  lookup-retain p k v [] h t = h
  lookup-retain p k v ((j, w) ∷ m) h t = ground (arith, lookup-retain p k v m)

-- A predicate of every entry, by key and value.
module _ {ℓ κ ι} {K : Type ℓ} {V : Type κ} (P : K → V → Type ι) where
  abbrev pub AllEntries : Map K V → Type ι
  AllEntries [] = Unit
  AllEntries ((k, v) ∷ m) = P k v × AllEntries m

  pub AllEntries-retain : (p : K → V → Bool) (m : Map K V) → AllEntries m → AllEntries (retain p m)
  unfolding retain
  AllEntries-retain p [] h = tt
  AllEntries-retain p ((k, v) ∷ m) h = elim (Bool-cases (p k v)) [
    | inl e ↦ rw (e, retain) (h.0, AllEntries-retain p m h.1)
    | inr e ↦ rw (e, retain) (AllEntries-retain p m h.1)
  ]

module _ {ℓ κ ι} {K : Type ℓ} {V : Type κ} ⦃e : Eq K⦄ (P : K → V → Type ι) where
  pub AllEntries-insert :
      (k : K) (v : V) (m : Map K V) → P k v → AllEntries P m → AllEntries P (insert k v m)
  unfolding insert
  AllEntries-insert k v [] new h = (new, tt)
  AllEntries-insert k v ((j, w) ∷ m) new h = elim (Bool-cases (j == k)) [
    | inl t ↦ rw (t, insert) (new, h.1)
    | inr t ↦ rw (t, insert) (h.0, AllEntries-insert k v m new h.1)
  ]

  pub AllEntries-lookup :
      (k : K) (v : V) (m : Map K V) → AllEntries P m → lookup k m ≡ some v → P k v
  unfolding lookup
  AllEntries-lookup k v [] h found = cc
  AllEntries-lookup k v ((j, w) ∷ m) h found = ground (arith, AllEntries-lookup k v m)
