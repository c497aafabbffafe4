-- ===== src/Runtime.antt =====
-- crates/misaka-runtime: the long-running services of a Sister.
pub mod MembershipSerialStore
pub mod Enrollment
pub mod Redeem
pub mod JsonFile
pub mod AuthenticatedSession
pub mod AuthorizationNonceStore
pub mod RevocationStore
pub mod Frame
pub mod ContentStore
pub mod Transfer
pub mod TransferV1
pub mod NetworkStores
pub mod JoinTransaction
pub mod JobQueue
pub mod JobManager
pub mod JobHandler
pub mod StreamAuthorization
pub mod PeerService
pub mod Dispatch
mod SessionTests
mod TransferTests
mod DispatchTests
mod JoinTests
mod CopyTests
mod StreamTests
mod JobTests
mod Tests
