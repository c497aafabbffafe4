-- ===== src/Core/Types.antt =====
-- crates/misaka-core/src/{identity,gateway,enrollment,protocol}.rs: the data types of the domain contracts.
mod Keys
mod Member
mod Signed
mod Exchange
mod Session
unfoldable pub use Keys.*
unfoldable pub use Member.*
unfoldable pub use Signed.*
unfoldable pub use Exchange.*
unfoldable pub use Session.*
