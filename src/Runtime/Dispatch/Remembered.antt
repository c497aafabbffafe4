-- ===== src/Runtime/Dispatch/Remembered.antt =====
-- crates/misaka-runtime/src/peer_service.rs: remembering the Sister of a Hello.
use misaka.Prelude.{ℕ, ◌≡◌, refl, true, false, ◌==◌}
use misaka.Core.Types.{network_id_eq}
use misaka.Core.PeerStateTable.{PeerState}
use misaka.Runtime.PeerService
use misaka.Runtime.PeerService.{PeerService, introduced}
use misaka.Runtime.Dispatch.{HelloData}

abbrev pub introduced_by : HelloData → PeerState
introduced_by h =
    introduced h.identity h.network_id h.listen_addr h.stream_addr h.stream_certificate

module _ (service : PeerService) (h : HelloData) (now : ℕ) where
  abbrev pub remembered : PeerService
  remembered =
      PeerService.remember_peer service h.identity h.network_id h.listen_addr h.stream_addr
        h.stream_certificate now

  pub remembered_own :
      (h.network_id == service.network_id) ≡ true
      → remembered ≡ PeerService.upsert service (introduced_by h) now
  unfolding PeerService.remember_peer
  remembered_own k = rw k refl

  pub remembered_foreign : (h.network_id == service.network_id) ≡ false → remembered ≡ service
  unfolding PeerService.remember_peer
  remembered_foreign k = rw k refl
