-- ===== src/Runtime/Dispatch/Records.antt =====
-- crates/misaka-runtime/src/handler.rs: the peer records that a Sister keeps.
use misaka.Prelude.{
  ℕ, ◌≤◌, ◌≡◌, ◌∙◌, ◌⊎◌, inl, inr, true, not, ◌||◌, Option, none, some, List, [], ◌∷◌, ◌==◌, nat_eq,
  Bool-cases,
}
use misaka.Prelude.Map.{lookup}
use misaka.Prelude.Result.{Result}
use misaka.Core.Types.{PeerRecord, network_id_eq, iroh_endpoint_id_eq}
use misaka.Core.PeerRecord
use misaka.Core.Wire.{Wire}
use misaka.Runtime.AuthenticatedSession.{AuthenticatedPeer}
use misaka.Runtime.Dispatch.Succession.{
  IsGenuine, Succeeds, Succeeds-refl, Succeeds-trans, upsert-Succeeds, upsert_peer_record-Succeeds,
  remember_peer-Succeeds,
}
use misaka.Runtime.Dispatch.{
  ControlNode, Envelope, DispatchError, PayloadWire, MessageType, hello, state, peer_records,
  HelloData, StateData, PeerRecordsData, dispatch_envelope, handle_message, handle_hello,
  handle_state, handle_peer_records, remember_peer_record, remember_all, sender_matches_peer,
  peer_state, names_endpoint,
}

module _ ⦃w : Wire⦄ ⦃p : PayloadWire⦄ where
  -- What a step leaves of the peer service.
  abbrev Keeps : ControlNode → ControlNode → Type 0
  Keeps node next = Succeeds node.peers next.peers

  remember_peer_record-Succeeds :
      (node : ControlNode) (r : PeerRecord) → Keeps node (remember_peer_record node r)
  unfolding remember_peer_record
  remember_peer_record-Succeeds node r =
      elim (Bool-cases (
        not (r.network_id == node.network_id)
        || not (PeerRecord.verify r)
        || not (
            names_endpoint (p.iroh_endpoint_bytes r.endpoint_addr)
              r.transport_binding.iroh_endpoint_id))) [
                | inl t ↦ rw t (Succeeds-refl node.peers)
                | inr t ↦ rw t (upsert_peer_record-Succeeds node.peers r)
              ]

  remember_all-Succeeds :
      (node : ControlNode) (rs : List PeerRecord) → Keeps node (remember_all node rs)
  unfolding remember_all
  remember_all-Succeeds node [] = Succeeds-refl node.peers
  remember_all-Succeeds node (r ∷ rs) =
      Succeeds-trans _ _ _ (remember_peer_record-Succeeds node r)
        (remember_all-Succeeds (remember_peer_record node r) rs)

  handle_peer_records-Succeeds :
      (node : ControlNode) (d : Option PeerRecordsData) → Keeps node (handle_peer_records node d).1
  unfolding handle_peer_records
  handle_peer_records-Succeeds node none = Succeeds-refl node.peers
  handle_peer_records-Succeeds node (some d) = elim (Bool-cases (d.network_id == node.network_id)) [
    | inl t ↦ rw t (remember_all-Succeeds node d.records)
    | inr t ↦ rw t (Succeeds-refl node.peers)
  ]

  handle_state-Succeeds :
      (node : ControlNode) (peer : Option AuthenticatedPeer) (s : Option StateData) (now : ℕ)
      → Keeps node (handle_state node peer s now).1
  unfolding handle_state
  handle_state-Succeeds node peer none now = Succeeds-refl node.peers
  handle_state-Succeeds node peer (some s) now =
      elim (Bool-cases (s.network_id == node.network_id)) [
        | inl t ↦ elim (Bool-cases (sender_matches_peer peer s.identity.id.number)) [
          | inl m ↦ rw (t, m) (upsert-Succeeds node.peers (peer_state s) now)
          | inr m ↦ rw (t, m) (Succeeds-refl node.peers)
        ]
        | inr t ↦ rw t (Succeeds-refl node.peers)
      ]

  handle_hello-Succeeds :
      (node : ControlNode) (peer : Option AuthenticatedPeer) (from : ℕ) (h : Option HelloData)
      (now : ℕ)
      → Keeps node (handle_hello node peer from h now).1
  unfolding handle_hello
  handle_hello-Succeeds node peer from none now = Succeeds-refl node.peers
  handle_hello-Succeeds node peer from (some h) now =
      elim (Bool-cases (h.network_id == node.network_id)) [
        | inl t ↦ elim (Bool-cases (sender_matches_peer peer h.identity.id.number)) [
          | inl m ↦ rw (t, m) (remember_peer-Succeeds node.peers h now)
          | inr m ↦ rw (t, m) (Succeeds-refl node.peers)
        ]
        | inr t ↦ rw t (Succeeds-refl node.peers)
      ]

  handle_message-Succeeds :
      (node : ControlNode) (type : MessageType) (env : Envelope) (peer : Option AuthenticatedPeer)
      (job_reply : Result DispatchError (Option Envelope)) (now : ℕ)
      → Keeps node (handle_message node type env peer job_reply now).1
  unfolding handle_message
  handle_message-Succeeds node hello env peer job_reply now =
      handle_hello-Succeeds node peer env.from (p.read_hello env.bytes) now
  handle_message-Succeeds node state env peer job_reply now =
      handle_state-Succeeds node peer (p.read_state env.bytes) now
  handle_message-Succeeds node peer_records env peer job_reply now =
      handle_peer_records-Succeeds node (p.read_peer_records env.bytes)
  handle_message-Succeeds node _ env peer job_reply now = Succeeds-refl node.peers

  dispatch_envelope-Succeeds :
      (node : ControlNode) (env : Envelope) (peer : Option AuthenticatedPeer)
      (job_reply : Result DispatchError (Option Envelope)) (now : ℕ)
      → Keeps node (dispatch_envelope node env peer job_reply now).1
  unfolding dispatch_envelope
  dispatch_envelope-Succeeds node env peer job_reply now =
      elim (Bool-cases (env.network_id == node.network_id)) [
        | inl t ↦ elim (Bool-cases (sender_matches_peer peer env.from)) [
          | inl m ↦ rw (t, m) (handle_message-Succeeds node env.msg_type env peer job_reply now)
          | inr m ↦ rw (t, m) (Succeeds-refl node.peers)
        ]
        | inr t ↦ rw t (Succeeds-refl node.peers)
      ]

  -- An envelope as it arrives, with the peer of its stream and what its job branch answers.
  pub record Arrival : Type 0 where
    pub envelope : Envelope
    pub peer : Option AuthenticatedPeer
    pub job_reply : Result DispatchError (Option Envelope)
    pub now : ℕ

  unfoldable pub receive : ControlNode → List Arrival → ControlNode
  receive node [] = node
  receive node (a ∷ rest) =
      receive (dispatch_envelope node a.envelope a.peer a.job_reply a.now).1 rest

  receive-Succeeds :
      (node : ControlNode) (arrivals : List Arrival) → Keeps node (receive node arrivals)
  unfolding receive
  receive-Succeeds node [] = Succeeds-refl node.peers
  receive-Succeeds node (a ∷ rest) =
      Succeeds-trans _ _ _ (dispatch_envelope-Succeeds node a.envelope a.peer a.job_reply a.now)
        (receive-Succeeds (dispatch_envelope node a.envelope a.peer a.job_reply a.now).1 rest)

  -- A peer record that a Sister keeps is never lost and never gives way to an older one, whatever
  -- envelopes arrive, on authenticated streams or not.
  pub record_kept :
      (node : ControlNode) (arrivals : List Arrival) (id : ℕ) (r : PeerRecord)
      → lookup id node.peers.records ≡ some r
      → (r' : PeerRecord) × (lookup id (receive node arrivals).peers.records ≡ some r')
        × (r.sequence ≤ r'.sequence)
  unfolding Succeeds
  record_kept node arrivals id r h = (receive-Succeeds node arrivals).1 id r h

  -- Each peer record that a Sister keeps after any envelopes is one that she kept before or a
  -- verified record of her network that stands under its own Sister.
  pub record_genuine :
      (node : ControlNode) (arrivals : List Arrival) (id : ℕ) (r : PeerRecord)
      → lookup id (receive node arrivals).peers.records ≡ some r
      → (lookup id node.peers.records ≡ some r)
        ⊎ ((r.sister_id.number ≡ id)
            × (r.network_id ≡ node.peers.network_id)
            × (PeerRecord.verify r ≡ true))
  unfolding Succeeds IsGenuine
  record_genuine node arrivals id r h =
      let s = receive-Succeeds node arrivals in
      elim (s.2 id r h) [ inl k ↦ inl k | inr k ↦ inr (k.0, k.1 ∙ s.0, k.2) ]
