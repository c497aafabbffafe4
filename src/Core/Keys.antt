-- ===== src/Core/Keys.antt =====
-- crates/misaka-core/src/identity.rs: signing and verifying with the three kinds of keys.
use misaka.Prelude.{Bytes, Bool, true, false, ◌≡◌, if◌then◌else◌, replicate, arith}
use misaka.Core.Types.{
  SisterPublicKey, SisterSignature, SisterKeyPair, HumanPublicKey, HumanSignature, HumanKeyPair,
  AuthorityPublicKey, AuthoritySignature, AuthorityKeyPair, NetworkId, NetworkAuthority,
}
use misaka.Core.Wire.{Wire, SignsSoundly}

-- The placeholder that `issue` signs over: `[0; SISTER_SIGNATURE_LEN]`.
abbrev pub zero_signature : Bytes
zero_signature = replicate 64 0

module _ ⦃w : Wire⦄ where
  -- SisterPublicKey::verify
  unfoldable pub sister_verify : SisterPublicKey → Bytes → SisterSignature → Bool
  sister_verify key message signature =
      if w.is_valid_key key.key_bytes
      then w.ed25519_verify key.key_bytes message signature.signature_bytes
      else false

  -- SisterKeyPair::public_key
  unfoldable pub sister_public_key : SisterKeyPair → SisterPublicKey
  sister_public_key key = record { key_bytes = w.verifying_key key.secret }

  -- SisterKeyPair::sign
  unfoldable pub sister_sign : SisterKeyPair → Bytes → SisterSignature
  sister_sign key message = record { signature_bytes = w.ed25519_sign key.secret message }

  -- HumanPublicKey::verify
  unfoldable pub human_verify : HumanPublicKey → Bytes → HumanSignature → Bool
  human_verify key message signature =
      if w.is_valid_key key.key_bytes
      then w.ed25519_verify key.key_bytes message signature.signature_bytes
      else false

  -- HumanKeyPair::public_key
  unfoldable pub human_public_key : HumanKeyPair → HumanPublicKey
  human_public_key key = record { key_bytes = w.verifying_key key.secret }

  -- HumanKeyPair::sign
  unfoldable pub human_sign : HumanKeyPair → Bytes → HumanSignature
  human_sign key message = record { signature_bytes = w.ed25519_sign key.secret message }

  -- AuthorityPublicKey::verify
  unfoldable pub authority_verify : AuthorityPublicKey → Bytes → AuthoritySignature → Bool
  authority_verify key message signature =
      if w.is_valid_key key.key_bytes
      then w.ed25519_verify key.key_bytes message signature.signature_bytes
      else false

  -- AuthorityKeyPair::public_key
  unfoldable pub authority_public_key : AuthorityKeyPair → AuthorityPublicKey
  authority_public_key key = record { key_bytes = w.verifying_key key.secret }

  -- AuthorityKeyPair::sign
  unfoldable pub authority_sign : AuthorityKeyPair → Bytes → AuthoritySignature
  authority_sign key message = record { signature_bytes = w.ed25519_sign key.secret message }

  -- NetworkAuthority::generate, for the key that was drawn
  unfoldable pub generate : NetworkId → AuthorityKeyPair → NetworkAuthority
  unfolding authority_public_key
  generate network_id key = record {
    network_id = network_id;
    authority_public_key = authority_public_key key;
  }

module _ ⦃w : Wire⦄ (s : SignsSoundly w) where
  pub sister_verify-sign :
      (key : SisterKeyPair) (message : Bytes)
      → sister_verify (sister_public_key key) message (sister_sign key message) ≡ true
  unfolding sister_verify sister_public_key sister_sign
  sister_verify-sign key message =
      ground (arith, s.key_valid key.secret, s.signature_verifies key.secret message)

  pub human_verify-sign :
      (key : HumanKeyPair) (message : Bytes)
      → human_verify (human_public_key key) message (human_sign key message) ≡ true
  unfolding human_verify human_public_key human_sign
  human_verify-sign key message =
      ground (arith, s.key_valid key.secret, s.signature_verifies key.secret message)

  pub authority_verify-sign :
      (key : AuthorityKeyPair) (message : Bytes)
      → authority_verify (authority_public_key key) message (authority_sign key message) ≡ true
  unfolding authority_verify authority_public_key authority_sign
  authority_verify-sign key message =
      ground (arith, s.key_valid key.secret, s.signature_verifies key.secret message)
