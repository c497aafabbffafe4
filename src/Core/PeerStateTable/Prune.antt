-- ===== src/Core/PeerStateTable/Prune.antt =====
-- crates/misaka-core/src/peer.rs: which peers the table keeps.
use misaka.Prelude.{
  ℕ, ◌+◌, ◌≤◌, ◌≡◌, refl, ap, ◌∙◌, inl, inr, Bool, true, not, ◌&&◌, none, some, List, [], ◌∷◌, ◌==◌,
  nat_eq, if◌then◌else◌, any, Bool-cases, arith,
}
use misaka.Prelude.Map
use misaka.Prelude.Map.{Map}
use misaka.Core.PeerStateTable.{
  PeerState, PeerStateTable, new, merged, upsert, is_some, contains, is_alive, dead, forget,
  prune_offline,
}

-- One change of the table, with the clock.
pub data Call : Type 0 where
  upserts : PeerState → ℕ → Call
  prunes : ℕ → ℕ → Call

unfoldable pub step : PeerStateTable → Call → PeerStateTable
step t (upserts state now) = upsert t state now
step t (prunes timeout now) = (prune_offline t timeout now).1

unfoldable pub run : PeerStateTable → List Call → PeerStateTable
unfolding step
run t [] = t
run t (c ∷ cs) = run (step t c) cs

lookup-retain_key :
    (p : ℕ → Bool) (id : ℕ) (m : Map ℕ PeerState)
    → Map.lookup id (Map.retain (λ i _. p i) m) ≡ (if p id then Map.lookup id m else none)
unfolding Map.lookup Map.retain
lookup-retain_key p id [] = ground arith
lookup-retain_key p id ((i, s) ∷ m) = elim (Bool-cases (p i)) [
  | inl t ↦ rw t (ground (arith, t, lookup-retain_key p id m))
  | inr t ↦ rw t (ground (arith, t, lookup-retain_key p id m))
]

lookup-forget :
    (id : ℕ) (ids : List ℕ) (m : Map ℕ ℕ)
    → Map.lookup id (forget ids m) ≡ (if any (λ i. i == id) ids then none else Map.lookup id m)
unfolding forget
lookup-forget id [] m = refl
lookup-forget id (i ∷ ids) m =
    lookup-forget id ids (Map.remove i m) ∙ ground (arith, Map.lookup-remove i id m)

any-dead :
    (t : PeerStateTable) (timeout now id : ℕ) (m : Map ℕ PeerState)
    → any (λ i. i == id) (dead t timeout now m)
      ≡ (is_some (Map.lookup id m) && not (is_alive t timeout now id))
unfolding dead is_some Map.lookup
any-dead t timeout now id [] = refl
any-dead t timeout now id ((i, s) ∷ m) = elim (Bool-cases (i == id)) [
  | inl same ↦
      let e : i ≡ id = ground (arith, same) in
      let a = ap (is_alive t timeout now) e in ground (arith, same, a, any-dead t timeout now id m)
  | inr other ↦ ground (arith, other, any-dead t timeout now id m)
]

-- A peer has a row exactly when the table has seen it.
IsSeen : PeerStateTable → Type 0
IsSeen t = (id : ℕ) → is_some (Map.lookup id t.peers) ≡ is_some (Map.lookup id t.last_seen)

upsert-IsSeen :
    (t : PeerStateTable) (state : PeerState) (now : ℕ) → IsSeen t → IsSeen (upsert t state now)
unfolding IsSeen upsert is_some
upsert-IsSeen t state now h id = ground (
  arith,
  Map.lookup-insert state.id id (merged (Map.lookup state.id t.peers) state) t.peers,
  Map.lookup-insert state.id id now t.last_seen,
  h id,
)

prune-peers :
    (t : PeerStateTable) (timeout now id : ℕ)
    → Map.lookup id (prune_offline t timeout now).1.peers
      ≡ (if is_alive t timeout now id then Map.lookup id t.peers else none)
unfolding prune_offline
prune-peers t timeout now id = lookup-retain_key (is_alive t timeout now) id t.peers

prune-last_seen :
    (t : PeerStateTable) (timeout now id : ℕ)
    → Map.lookup id (prune_offline t timeout now).1.last_seen ≡ (
        if is_some (Map.lookup id t.peers) && not (is_alive t timeout now id)
        then none
        else Map.lookup id t.last_seen)
unfolding prune_offline
prune-last_seen t timeout now id =
    lookup-forget id (dead t timeout now t.peers) t.last_seen
    ∙ rw (any-dead t timeout now id t.peers) refl

prune-IsSeen :
    (t : PeerStateTable) (timeout now : ℕ) → IsSeen t → IsSeen (prune_offline t timeout now).1
unfolding IsSeen is_some is_alive
prune-IsSeen t timeout now h id =
    ground (arith, prune-peers t timeout now id, prune-last_seen t timeout now id, h id)

run-IsSeen : (t : PeerStateTable) (cs : List Call) → IsSeen t → IsSeen (run t cs)
unfolding run step
run-IsSeen t [] h = h
run-IsSeen t (upserts state now ∷ cs) h =
    run-IsSeen (upsert t state now) cs (upsert-IsSeen t state now h)
run-IsSeen t (prunes timeout now ∷ cs) h =
    run-IsSeen (prune_offline t timeout now).1 cs (prune-IsSeen t timeout now h)

-- After any calls on a new table, each peer that it holds has a time at which it was last seen, and no
-- other id has one.
pub contains-seen :
    (cs : List Call) (id : ℕ)
    → contains (run new cs) id ≡ is_some (Map.lookup id (run new cs).last_seen)
unfolding contains new IsSeen
contains-seen cs id = run-IsSeen new cs (λ i. unfold Map.lookup is_some in refl) id

-- Pruning removes, and returns, exactly the peers that were not seen within the timeout.
pub prune_offline-contains :
    (t : PeerStateTable) (timeout now id : ℕ)
    → (contains (prune_offline t timeout now).1 id ≡ (contains t id && is_alive t timeout now id))
      × (any (λ i. i == id) (prune_offline t timeout now).0
          ≡ (contains t id && not (is_alive t timeout now id)))
unfolding contains is_some prune_offline
prune_offline-contains t timeout now id =
    (ground (arith, prune-peers t timeout now id), any-dead t timeout now id t.peers)

-- The clock does not go back before `start`, and no call prunes what was seen at `start`.
unfoldable pub Within : ℕ → List Call → Type 0
Within start [] = Unit
Within start (upserts state now ∷ cs) = (start ≤ now) × Within start cs
Within start (prunes timeout now ∷ cs) = (now ≤ start + timeout) × Within start cs

-- The table holds the peer, seen at `start` or later.
IsFresh : ℕ → ℕ → PeerStateTable → Type 0
IsFresh id start t =
    (contains t id ≡ true) × (seen : ℕ) × (Map.lookup id t.last_seen ≡ some seen) × (start ≤ seen)

upsert-IsFresh :
    (id start : ℕ) (t : PeerStateTable) (state : PeerState) (now : ℕ)
    → start ≤ now
    → IsFresh id start t
    → IsFresh id start (upsert t state now)
unfolding IsFresh upsert contains is_some
upsert-IsFresh id start t state now late h =
    let p = Map.lookup-insert state.id id (merged (Map.lookup state.id t.peers) state) t.peers in
    let l = Map.lookup-insert state.id id now t.last_seen in
    elim (Bool-cases (state.id == id)) [
      | inl same ↦ (ground (arith, p, same), now, l ∙ rw same refl, late)
      | inr other ↦ (ground (arith, p, other, h.0), h.1, l ∙ rw other h.2, h.3)
    ]

prune-IsFresh :
    (id start : ℕ) (t : PeerStateTable) (timeout now : ℕ)
    → now ≤ start + timeout
    → IsFresh id start t
    → IsFresh id start (prune_offline t timeout now).1
unfolding IsFresh is_alive
prune-IsFresh id start t timeout now soon h =
    let alive : is_alive t timeout now id ≡ true = rw h.2 (ground (arith, h.3)) in
    (
      (prune_offline-contains t timeout now id).0 ∙ rw (h.0, alive) refl,
      h.1,
      prune-last_seen t timeout now id ∙ ground (arith, alive, h.2),
      h.3,
    )

run-IsFresh :
    (id start : ℕ) (t : PeerStateTable) (cs : List Call)
    → Within start cs
    → IsFresh id start t
    → IsFresh id start (run t cs)
unfolding run step Within
run-IsFresh id start t [] w h = h
run-IsFresh id start t (upserts state now ∷ cs) w h =
    run-IsFresh id start (upsert t state now) cs w.1 (upsert-IsFresh id start t state now w.0 h)
run-IsFresh id start t (prunes timeout now ∷ cs) w h =
    run-IsFresh id start (prune_offline t timeout now).1 cs w.1
      (prune-IsFresh id start t timeout now w.0 h)

new-IsFresh :
    (t : PeerStateTable) (state : PeerState) (now : ℕ) → IsFresh state.id now (upsert t state now)
unfolding IsFresh upsert contains is_some
new-IsFresh t state now =
    let same : (state.id == state.id) ≡ true = ground arith in
    let p =
      Map.lookup-insert state.id state.id (merged (Map.lookup state.id t.peers) state) t.peers in
    let l = Map.lookup-insert state.id state.id now t.last_seen in
    (ground (arith, p, same), now, l ∙ rw same refl, omega arith)

-- A peer that was heard of is still in the table after any calls that come no earlier and whose prunings
-- have a timeout that reaches back to then.
pub heard-contains :
    (t : PeerStateTable) (state : PeerState) (now : ℕ) (cs : List Call)
    → Within now cs
    → contains (run (upsert t state now) cs) state.id ≡ true
unfolding IsFresh
heard-contains t state now cs w =
    (run-IsFresh state.id now (upsert t state now) cs w (new-IsFresh t state now)).0
