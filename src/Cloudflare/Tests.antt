-- ===== src/Cloudflare/Tests.antt =====
-- gateway/cloudflare/src/directory.rs: runs of the directory on the fixtures.
use misaka.Prelude.{[], ◌∷◌}
use misaka.Prelude.Map
use misaka.Core.Types.{GatewayAuth}
use misaka.Core.Gateway.{sign_announce}
use misaka.Cloudflare.{GatewayDirectory, nonce_ttl_secs, record_ttl_secs}
use misaka.Fixtures.{toy, network, authority, certificate, locator, sister_key}

abbrev directory : GatewayDirectory
directory = record {
  authority = authority;
  record_ttl = record_ttl_secs;
  nonce_ttl = nonce_ttl_secs;
  rows = [];
  nonces = [];
}

abbrev envelope : GatewayAuth
envelope = sign_announce network 42 500 (1 ∷ []) certificate locator sister_key
