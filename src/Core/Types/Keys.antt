-- ===== src/Core/Types/Keys.antt =====
-- crates/misaka-core/src/identity.rs: identifiers, keys and signatures. A key, a signature and an
-- endpoint are fixed-length byte arrays; a UUID is its 128-bit number.
use misaka.Prelude.{ℕ, Bytes, Bytes-discrete, ℕ_discrete, Eq}

-- The namespace of one independent network.
pub record NetworkId : Type 0 where
  pub uuid : ℕ

unfoldable pub NetworkId-discrete : Discrete NetworkId
unfolding ℕ_discrete
NetworkId-discrete = hlevel ℕ_discrete

instance abbrev pub network_id_eq : Eq NetworkId
network_id_eq = record { dec = NetworkId-discrete }

-- The stable number of a Sister (a u64).
pub record SisterId : Type 0 where
  pub number : ℕ

unfoldable pub SisterId-discrete : Discrete SisterId
unfolding ℕ_discrete
SisterId-discrete = hlevel ℕ_discrete

instance abbrev pub sister_id_eq : Eq SisterId
sister_id_eq = record { dec = SisterId-discrete }

-- The public key of a Sister.
pub record SisterPublicKey : Type 0 where
  pub key_bytes : Bytes

unfoldable pub SisterPublicKey-discrete : Discrete SisterPublicKey
unfolding Bytes-discrete
SisterPublicKey-discrete = hlevel Bytes-discrete

instance abbrev pub sister_public_key_eq : Eq SisterPublicKey
sister_public_key_eq = record { dec = SisterPublicKey-discrete }

-- A signature by a Sister key.
pub record SisterSignature : Type 0 where
  pub signature_bytes : Bytes

-- The private key of a Sister.
pub record SisterKeyPair : Type 0 where
  pub secret : Bytes

-- The identity of a human operator.
pub record HumanId : Type 0 where
  pub uuid : ℕ

unfoldable pub HumanId-discrete : Discrete HumanId
unfolding ℕ_discrete
HumanId-discrete = hlevel ℕ_discrete

instance abbrev pub human_id_eq : Eq HumanId
human_id_eq = record { dec = HumanId-discrete }

-- The public key of a human operator.
pub record HumanPublicKey : Type 0 where
  pub key_bytes : Bytes

unfoldable pub HumanPublicKey-discrete : Discrete HumanPublicKey
unfolding Bytes-discrete
HumanPublicKey-discrete = hlevel Bytes-discrete

instance abbrev pub human_public_key_eq : Eq HumanPublicKey
human_public_key_eq = record { dec = HumanPublicKey-discrete }

-- A signature by a human key.
pub record HumanSignature : Type 0 where
  pub signature_bytes : Bytes

-- The private key of a human operator.
pub record HumanKeyPair : Type 0 where
  pub secret : Bytes

-- The public key of a Network Authority.
pub record AuthorityPublicKey : Type 0 where
  pub key_bytes : Bytes

unfoldable pub AuthorityPublicKey-discrete : Discrete AuthorityPublicKey
unfolding Bytes-discrete
AuthorityPublicKey-discrete = hlevel Bytes-discrete

instance abbrev pub authority_public_key_eq : Eq AuthorityPublicKey
authority_public_key_eq = record { dec = AuthorityPublicKey-discrete }

-- A signature by the authority key.
pub record AuthoritySignature : Type 0 where
  pub signature_bytes : Bytes

unfoldable pub AuthoritySignature-discrete : Discrete AuthoritySignature
unfolding Bytes-discrete
AuthoritySignature-discrete = hlevel Bytes-discrete

-- The governance key of one network.
pub record AuthorityKeyPair : Type 0 where
  pub secret : Bytes

-- The identity of an Iroh endpoint.
pub record IrohEndpointId : Type 0 where
  pub endpoint_bytes : Bytes

unfoldable pub IrohEndpointId-discrete : Discrete IrohEndpointId
unfolding Bytes-discrete
IrohEndpointId-discrete = hlevel Bytes-discrete

instance abbrev pub iroh_endpoint_id_eq : Eq IrohEndpointId
iroh_endpoint_id_eq = record { dec = IrohEndpointId-discrete }
