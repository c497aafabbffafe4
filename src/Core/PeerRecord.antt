-- ===== src/Core/PeerRecord.antt =====
-- crates/misaka-core/src/identity.rs: impl PeerRecord.
use misaka.Prelude.{ℕ, Bytes, Text, Bool, ◌&&◌, ◌==◌, nat_eq}
use misaka.Core.Types.{
  NetworkId, SisterKeyPair, TransportBinding, PeerRecord, PeerRecordUnsigned, network_id_eq,
  sister_id_eq, sister_public_key_eq,
}
use misaka.Core.TransportBinding
use misaka.Core.Wire.{Wire}
use misaka.Core.Keys.{zero_signature, sister_verify, sister_sign, sister_public_key}

unfoldable pub unsigned : PeerRecord → PeerRecordUnsigned
unsigned c = record {
  network_id = c.network_id;
  sister_id = c.sister_id;
  sister_public_key = c.sister_public_key;
  endpoint_addr = c.endpoint_addr;
  transport_binding = c.transport_binding;
  sequence = c.sequence;
  updated_at = c.updated_at;
}

module _ ⦃w : Wire⦄ where
  unfoldable pub signing_bytes : PeerRecord → Bytes
  unfolding unsigned
  signing_bytes c = w.peer_record_bytes (unsigned c)

  unfoldable pub issue : NetworkId → ℕ → Text → TransportBinding → ℕ → SisterKeyPair → PeerRecord
  unfolding sister_sign
  issue network_id sister_id endpoint_addr binding updated_at key =
      let c : PeerRecord = record {
        network_id = network_id;
        sister_id = record { number = sister_id };
        sister_public_key = sister_public_key key;
        endpoint_addr = endpoint_addr;
        transport_binding = binding;
        sequence = binding.sequence;
        updated_at = updated_at;
        sister_signature = record { signature_bytes = zero_signature };
      } in
      record c { sister_signature = sister_sign key (signing_bytes c) }

  unfoldable pub verify : PeerRecord → Bool
  verify c =
      c.network_id == c.transport_binding.network_id
      && c.sister_id == c.transport_binding.sister_id
      && c.sister_public_key == c.transport_binding.sister_public_key
      && c.sequence == c.transport_binding.sequence
      && TransportBinding.verify c.transport_binding
      && sister_verify c.sister_public_key (signing_bytes c) c.sister_signature
