-- ===== src/Runtime/Dispatch/Succession.antt =====
-- crates/misaka-runtime/src/peer_service.rs: how the records of a peer service follow one another.
use misaka.Prelude.{
  ℕ, ◌≤◌, ◌≡◌, refl, sym, subst, ◌∙◌, ◌⊎◌, inl, inr, Bool, true, false, not, some, ◌==◌, nat_eq,
  ltb, is_some_and, Bool-cases, arith,
}
use misaka.Prelude.Map.{lookup, insert, lookup-insert}
use misaka.Core.Types.{PeerRecord, network_id_eq, iroh_endpoint_id_eq}
use misaka.Core.PeerRecord
use misaka.Core.PeerStateTable.{PeerState}
use misaka.Core.Wire.{Wire}
use misaka.Runtime.PeerService
use misaka.Runtime.PeerService.{PeerService}
use misaka.Runtime.Dispatch.Remembered.{
  introduced_by, remembered, remembered_own, remembered_foreign,
}
use misaka.Runtime.Dispatch.{HelloData}

module _ ⦃w : Wire⦄ where
  -- What a record that a Sister keeps under an id is.
  unfoldable pub IsGenuine : PeerService → ℕ → PeerRecord → Type 0
  IsGenuine service id r =
      (r.sister_id.number ≡ id) × (r.network_id ≡ service.network_id) × (PeerRecord.verify r ≡ true)

  -- What was known of a Sister is replaced only by a record of her own that is not older.
  unfoldable pub Succeeds : PeerService → PeerService → Type 0
  Succeeds old new =
      (new.network_id ≡ old.network_id)
      × ((id : ℕ) (r : PeerRecord)
          → lookup id old.records ≡ some r
          → (r' : PeerRecord) × (lookup id new.records ≡ some r') × (r.sequence ≤ r'.sequence))
      × ((id : ℕ) (r : PeerRecord)
          → lookup id new.records ≡ some r
          → (lookup id old.records ≡ some r) ⊎ IsGenuine new id r)

  pub Succeeds-refl : (service : PeerService) → Succeeds service service
  unfolding Succeeds
  Succeeds-refl service = (refl, λ id r h. (r, h, omega arith), λ id r h. inl h)

  pub Succeeds-trans : (a b c : PeerService) → Succeeds a b → Succeeds b c → Succeeds a c
  unfolding Succeeds IsGenuine
  Succeeds-trans a b c f g = (
    g.0 ∙ f.0,
    (λ id r h.
        let (r', h', l) = f.1 id r h in
        let (r'', h'', l') = g.1 id r' h' in (r'', h'', omega (arith, l, l'))),
    (λ id r h. elim (g.2 id r h) [
      | inr k ↦ inr k
      | inl k ↦ elim (f.2 id r k) [ inl k' ↦ inl k' | inr k' ↦ inr (k'.0, k'.1 ∙ sym g.0, k'.2) ]
    ]),
  )

  -- The record that is replaced, if there is one, is not newer.
  is_not_newer : PeerService → PeerRecord → Bool
  is_not_newer service r = not (
      is_some_and (lookup r.sister_id.number service.records)
        (λ current. ltb r.sequence current.sequence))

  insert-Succeeds :
      (service : PeerService) (r : PeerRecord)
      → r.network_id ≡ service.network_id
      → PeerRecord.verify r ≡ true
      → is_some_and
          (lookup r.sister_id.number service.records)
          (λ current. ltb r.sequence current.sequence)
        ≡ false
      → Succeeds service (record service { records = insert r.sister_id.number r service.records })
  unfolding Succeeds IsGenuine
  insert-Succeeds service r n v s = (
    refl,
    (λ id old h.
        let at_id = lookup-insert r.sister_id.number id r service.records in
        elim (Bool-cases (r.sister_id.number == id)) [
          | inl t ↦
              let same : r.sister_id.number ≡ id = ground (arith, t) in
              let found = subst (λ i. lookup i service.records ≡ some old) (sym same) h in
              (r, at_id ∙ rw t refl, ground (arith, found, s))
          | inr t ↦ (old, at_id ∙ rw t h, omega arith)
        ]),
    (λ id new h.
        let at_id = lookup-insert r.sister_id.number id r service.records in
        elim (Bool-cases (r.sister_id.number == id)) [
          | inl t ↦
              let same : r ≡ new = ground (arith, at_id, t, h) in
              inr (
                subst
                  (λ x.
                    (x.sister_id.number ≡ id)
                    × (x.network_id ≡ service.network_id)
                    × (PeerRecord.verify x ≡ true))
                  same (ground (arith, t), n, v))
          | inr t ↦ inl (sym (at_id ∙ rw t refl) ∙ h)
        ]),
  )

  pub upsert_peer_record-Succeeds :
      (service : PeerService) (r : PeerRecord)
      → Succeeds service (PeerService.upsert_peer_record service r)
  unfolding PeerService.upsert_peer_record
  upsert_peer_record-Succeeds service r = elim (Bool-cases (r.network_id == service.network_id)) [
    | inl t ↦ elim (Bool-cases (PeerRecord.verify r)) [
      | inl v ↦
          elim (Bool-cases (
            is_some_and (lookup r.sister_id.number service.records)
              (λ current. ltb r.sequence current.sequence))) [
                | inl s ↦ rw (t, v, s) (Succeeds-refl service)
                | inr s ↦ rw (t, v, s) (insert-Succeeds service r (ground (arith, t)) v s)
              ]
      | inr v ↦ rw (t, v) (Succeeds-refl service)
    ]
    | inr t ↦ rw t (Succeeds-refl service)
  ]

  pub upsert-Succeeds :
      (service : PeerService) (s : PeerState) (now : ℕ)
      → Succeeds service (PeerService.upsert service s now)
  unfolding PeerService.upsert
  upsert-Succeeds service s now = elim (Bool-cases (s.network_id == service.network_id)) [
    | inl t ↦ rw t (unfold Succeeds in (refl, λ id r h. (r, h, omega arith), λ id r h. inl h))
    | inr t ↦ rw t (Succeeds-refl service)
  ]

  pub remember_peer-Succeeds :
      (service : PeerService) (h : HelloData) (now : ℕ)
      → Succeeds service (remembered service h now)
  remember_peer-Succeeds service h now = elim (Bool-cases (h.network_id == service.network_id)) [
    | inl t ↦
        subst (Succeeds service) (sym (remembered_own service h now t))
          (upsert-Succeeds service (introduced_by h) now)
    | inr t ↦
        subst (Succeeds service) (sym (remembered_foreign service h now t)) (Succeeds-refl service)
  ]
