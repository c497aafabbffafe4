-- ===== src/Core.antt =====
-- crates/misaka-core: the domain contracts, with no I/O.
pub mod Types
pub mod Wire
pub mod Keys
pub mod Role
pub mod MembershipCertificate
pub mod HumanMembershipCertificate
pub mod RevocationRecord
pub mod TransportBinding
pub mod PeerRecord
pub mod NetworkInvite
pub mod CommandAuthorization
pub mod Gateway
pub mod Contracts
pub mod Job
pub mod PeerStateTable
pub mod Base64
pub mod EnrollmentInvite
pub mod EnrollmentChallenge
pub mod EnrollmentResponse
pub mod AuthenticatedClientHello
pub mod AuthenticatedServerHello
pub mod Transfer
pub mod InviteCode
pub mod Enrollment
mod Tests
mod PeerTests
