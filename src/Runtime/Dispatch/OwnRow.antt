-- ===== src/Runtime/Dispatch/OwnRow.antt =====
-- crates/misaka-runtime/src/handler.rs: a peer speaks for herself only.
use misaka.Prelude.{
  ◌&&◌, Bool, true, false, ℕ, ◌≡◌, ◌≢◌, refl, sym, subst, ◌∙◌, inl, inr, Option, none, some, List,
  [], ◌∷◌, ◌==◌, nat_eq, Bool-cases, arith,
}
use misaka.Prelude.Map.{lookup, lookup-insert}
use misaka.Prelude.Result.{Result, is_ok}
use misaka.Core.Types.{PeerRecord, network_id_eq}
use misaka.Core.PeerStateTable
use misaka.Core.PeerStateTable.{PeerState}
use misaka.Core.Wire.{Wire}
use misaka.Runtime.AuthenticatedSession.{AuthenticatedPeer}
use misaka.Runtime.PeerService
use misaka.Runtime.PeerService.{PeerService, SisterIdentity, introduced}
use misaka.Runtime.Dispatch.Remembered.{
  introduced_by, remembered, remembered_own, remembered_foreign,
}
use misaka.Runtime.Dispatch.{
  ControlNode, Envelope, DispatchError, PayloadWire, MessageType, hello, heartbeat, state, job,
  job_request, job_response, acknowledgement, ping, pong, peer_records, HelloData, StateData,
  PeerRecordsData, dispatch_envelope, handle_message, handle_hello, handle_state,
  handle_peer_records, remember_peer_record, remember_all, sender_matches_peer, peer_state,
}

and_false : (b : Bool) → (b && false) ≡ false
and_false true = refl
and_false false = refl

-- The rows of a table at one id.
abbrev pub row : ControlNode → ℕ → Option PeerState × Option ℕ
row node id = (lookup id node.peers.registry.peers, lookup id node.peers.registry.last_seen)

upsert-row :
    (node : ControlNode) (s : PeerState) (now id : ℕ)
    → s.id ≢ id
    → row (record node { peers = PeerService.upsert node.peers s now }) id ≡ row node id
unfolding PeerService.upsert PeerStateTable.upsert
upsert-row node s now id n =
    let other : (s.id == id) ≡ false = ground (arith, n) in
    elim (Bool-cases (s.network_id == node.peers.network_id)) [
      | inl t ↦
          rw
            (
              t,
              lookup-insert s.id id
                  (PeerStateTable.merged (lookup s.id node.peers.registry.peers) s)
                  node.peers.registry.peers,
              lookup-insert s.id id now node.peers.registry.last_seen,
              other,
            )
            refl
      | inr t ↦ rw t refl
    ]

module _ ⦃w : Wire⦄ ⦃p : PayloadWire⦄ (node : ControlNode) (a : AuthenticatedPeer) (now id : ℕ)
    (other : a.sister_id.number ≢ id) where
  handle_state-row :
      (s : Option StateData) → row (handle_state node (some a) s now).1 id ≡ row node id
  unfolding handle_state sender_matches_peer
  handle_state-row none = refl
  handle_state-row (some s) = elim (Bool-cases (s.network_id == node.network_id)) [
    | inl t ↦ elim (Bool-cases (a.sister_id.number == s.identity.id.number)) [
      | inl m ↦
          rw (t, m)
            (upsert-row node (peer_state s) now id
              (unfold peer_state in λ e. other (ground (arith, m, e))))
      | inr m ↦ rw (t, m) refl
    ]
    | inr t ↦ rw t refl
  ]

  remembered-row :
      (h : HelloData)
      → a.sister_id.number ≡ h.identity.id.number
      → row (record node { peers = remembered node.peers h now }) id ≡ row node id
  remembered-row h m = elim (Bool-cases (h.network_id == node.peers.network_id)) [
    | inl k ↦
        subst (λ peers. row (record node { peers = peers }) id ≡ row node id)
          (sym (remembered_own node.peers h now k))
          (upsert-row node (introduced_by h) now id (unfold introduced in λ e. other (m ∙ e)))
    | inr k ↦
        subst (λ peers. row (record node { peers = peers }) id ≡ row node id)
          (sym (remembered_foreign node.peers h now k)) refl
  ]

  handle_hello-row :
      (from : ℕ) (h : Option HelloData)
      → row (handle_hello node (some a) from h now).1 id ≡ row node id
  unfolding handle_hello sender_matches_peer
  handle_hello-row from none = refl
  handle_hello-row from (some h) = elim (Bool-cases (h.network_id == node.network_id)) [
    | inl t ↦ elim (Bool-cases (a.sister_id.number == h.identity.id.number)) [
      | inl m ↦ rw (t, m) (remembered-row h (ground (arith, m)))
      | inr m ↦ rw (t, m) refl
    ]
    | inr t ↦ rw t refl
  ]

module _ ⦃w : Wire⦄ ⦃p : PayloadWire⦄ (id : ℕ) where
  remember_peer_record-row :
      (node : ControlNode) (r : PeerRecord) → row (remember_peer_record node r) id ≡ row node id
  unfolding remember_peer_record PeerService.upsert_peer_record
  remember_peer_record-row node r = ground arith

  remember_all-row :
      (node : ControlNode) (rs : List PeerRecord) → row (remember_all node rs) id ≡ row node id
  unfolding remember_all
  remember_all-row node [] = refl
  remember_all-row node (r ∷ rs) =
      remember_all-row (remember_peer_record node r) rs ∙ remember_peer_record-row node r

  handle_peer_records-row :
      (node : ControlNode) (d : Option PeerRecordsData)
      → row (handle_peer_records node d).1 id ≡ row node id
  unfolding handle_peer_records
  handle_peer_records-row node none = refl
  handle_peer_records-row node (some d) = elim (Bool-cases (d.network_id == node.network_id)) [
    | inl t ↦ rw t (remember_all-row node d.records)
    | inr t ↦ rw t refl
  ]

module _ ⦃w : Wire⦄ ⦃p : PayloadWire⦄ where
  handle_message-row :
      (node : ControlNode) (type : MessageType) (env : Envelope) (a : AuthenticatedPeer)
      (job_reply : Result DispatchError (Option Envelope)) (now id : ℕ)
      → a.sister_id.number ≢ id
      → row (handle_message node type env (some a) job_reply now).1 id ≡ row node id
  unfolding handle_message
  handle_message-row node hello env a job_reply now id other =
      handle_hello-row node a now id other env.from (p.read_hello env.bytes)
  handle_message-row node state env a job_reply now id other =
      handle_state-row node a now id other (p.read_state env.bytes)
  handle_message-row node peer_records env a job_reply now id other =
      handle_peer_records-row id node (p.read_peer_records env.bytes)
  handle_message-row node ping env a job_reply now id other = refl
  handle_message-row node pong env a job_reply now id other = refl
  handle_message-row node job env a job_reply now id other = refl
  handle_message-row node job_request env a job_reply now id other = refl
  handle_message-row node job_response env a job_reply now id other = refl
  handle_message-row node heartbeat env a job_reply now id other = refl
  handle_message-row node acknowledgement env a job_reply now id other = refl

  -- A peer speaks for herself only: whatever envelope arrives on the stream of an authenticated
  -- peer, the rows of the peer table of every other Sister, the times of last contact among them, stay
  -- as they were; and no envelope that names another Sister as its sender is accepted.
  pub dispatch_envelope-row :
      (node : ControlNode) (env : Envelope) (a : AuthenticatedPeer)
      (job_reply : Result DispatchError (Option Envelope)) (now id : ℕ)
      → a.sister_id.number ≢ id
      → (row (dispatch_envelope node env (some a) job_reply now).1 id ≡ row node id)
        × ((is_ok (dispatch_envelope node env (some a) job_reply now).0 && env.from == id) ≡ false)
  unfolding dispatch_envelope sender_matches_peer
  dispatch_envelope-row node env a job_reply now id other =
      elim (Bool-cases (env.network_id == node.network_id)) [
        | inl t ↦ elim (Bool-cases (a.sister_id.number == env.from)) [
          | inl m ↦
              let foreign : (env.from == id) ≡ false = ground (arith, m, other) in
              rw (t, m)
                (
                  handle_message-row node env.msg_type env a job_reply now id other,
                  rw foreign (and_false (is_ok _)),
                )
          | inr m ↦ rw (t, m) (refl, refl)
        ]
        | inr t ↦ rw t (refl, refl)
      ]
