-- ===== src/Core/TransportBinding.antt =====
-- crates/misaka-core/src/identity.rs: impl TransportBinding.
use misaka.Prelude.{ℕ, Bytes, Bool}
use misaka.Core.Types.{
  NetworkId, SisterKeyPair, IrohEndpointId, TransportBinding, TransportBindingUnsigned,
}
use misaka.Core.Wire.{Wire}
use misaka.Core.Keys.{zero_signature, sister_verify, sister_sign, sister_public_key}

unfoldable pub unsigned : TransportBinding → TransportBindingUnsigned
unsigned c = record {
  network_id = c.network_id;
  sister_id = c.sister_id;
  sister_public_key = c.sister_public_key;
  iroh_endpoint_id = c.iroh_endpoint_id;
  sequence = c.sequence;
}

module _ ⦃w : Wire⦄ where
  unfoldable pub signing_bytes : TransportBinding → Bytes
  unfolding unsigned
  signing_bytes c = w.binding_bytes (unsigned c)

  unfoldable pub sign : NetworkId → ℕ → IrohEndpointId → ℕ → SisterKeyPair → TransportBinding
  unfolding sister_sign
  sign network_id sister_id iroh_endpoint_id sequence key =
      let c : TransportBinding = record {
        network_id = network_id;
        sister_id = record { number = sister_id };
        sister_public_key = sister_public_key key;
        iroh_endpoint_id = iroh_endpoint_id;
        sequence = sequence;
        signature_by_sister_key = record { signature_bytes = zero_signature };
      } in
      record c { signature_by_sister_key = sister_sign key (signing_bytes c) }

  unfoldable pub verify : TransportBinding → Bool
  verify c = sister_verify c.sister_public_key (signing_bytes c) c.signature_by_sister_key
