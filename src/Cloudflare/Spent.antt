-- ===== src/Cloudflare/Spent.antt =====
-- gateway/cloudflare/src/directory.rs: a nonce is spent once.
use misaka.Prelude.{ℕ, ◌^◌, ◌<◌, ◌≡◌, Bytes, some, ltb, nat_eq, bytes_eq, arith}
use misaka.Prelude.Map
use misaka.Prelude.Result.{Result}
use misaka.Core.Gateway.Accepts.{Accepts}
use misaka.Core.Wire.{Wire}
use misaka.Cloudflare.{GatewayDirectory, Event, announces, lists, alarms, lt_i64}

-- Times below 2 ^ 63 are in the same order as i64.
pub lt_i64_lem : (a b : ℕ) → a < 2 ^ 63 → b < 2 ^ 63 → lt_i64 a b ≡ ltb a b
unfolding lt_i64
lt_i64_lem a b ha hb = ground (arith, ha, hb)

-- The nonce is in the table with the given expiry.
abbrev Holds : Bytes → ℕ → GatewayDirectory → Type 0
Holds nonce expiry d = Map.lookup nonce d.nonces ≡ some expiry

abbrev pub time_of : Event → ℕ
time_of (announces _ now) = now
time_of (lists _ now) = now
time_of (alarms now) = now
