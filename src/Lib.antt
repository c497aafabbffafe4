-- ===== src/Lib.antt =====
-- A verification library of Misaka, a private network of machines ("Sisters") that authenticate
-- one another by certificates of a Network Authority.
--
-- Prelude holds what the other modules share. Core models the domain contracts of
-- crates/misaka-core/src: Core/Types the data types of identity.rs, gateway.rs and enrollment.rs;
-- one module for each signed contract, with its `unsigned` view, `signing_bytes`, `issue` and
-- `verify`; Core/Gateway the request envelope of gateway.rs; Core/EnrollmentInvite,
-- Core/EnrollmentChallenge and Core/EnrollmentResponse the contracts of enrollment.rs,
-- Core/Base64 and Core/InviteCode its invite codes; Core/Job the job status of job.rs, and
-- Core/PeerStateTable the table of neighbours of peer.rs. Gatewayd models the rendezvous service
-- of crates/misaka-gatewayd/src/lib.rs: a directory of peer records and a set of spent nonces
-- behind two handlers, which call Core/Gateway. Cloudflare models the same service as an object
-- of the Cloudflare platform, gateway/cloudflare/src/directory.rs: two SQL tables, two routes and
-- an alarm. Runtime models services of crates/misaka-runtime/src: MembershipSerialStore of
-- membership_serial_store.rs, Enrollment the Authority's end of enrollment.rs and Redeem the
-- joining Sister's end, where the two ends meet in `exchange`. AuthorizationNonceStore and
-- RevocationStore are the used command nonces and the revocation list of
-- authorization_nonce_store.rs and revocation_store.rs, each over a JsonFile; JobQueue and
-- JobManager model queue.rs, state.rs and job_manager.rs; JobHandler the job branches of
-- handler.rs, which call the two stores and the manager. StreamAuthorization is the authorization
-- of transfers, tunnels and shells of runtime.rs over the same stores. Frame is the framing that
-- authenticated_session.rs, enrollment.rs and runtime.rs share, and AuthenticatedSession the two
-- ends of the handshake of authenticated_session.rs, which meet in `handshake`; its messages and
-- their signatures are Core/AuthenticatedClientHello and Core/AuthenticatedServerHello of
-- protocol.rs. Dispatch models dispatch_envelope of handler.rs on an established session, over
-- the peer table and the peer records of PeerService (peer_service.rs). Transfer models the
-- parallel-chunk file transfer of runtime.rs, over the ContentStore of content_store.rs and the
-- messages and digest of protocol.rs in Core/Transfer; Transfer/Workers are its workers in any
-- interleaving. TransferV1 is the receiving end of the resumable transfer of runtime.rs, and
-- TransferV1/Copy the sending end of crates/misaka-cli/src/main.rs. JoinTransaction models the
-- installation of a joined network of join_transaction.rs over the NetworkStores of
-- network_id_store.rs, network_authority_store.rs, membership_store.rs, peer_record_store.rs and
-- gateway_store.rs. Fixtures holds the concrete keys and records that the tests use.
--
-- Integers are natural numbers. Each u64 addition of times wraps at 2 ^ 64, and a theorem that
-- needs no overflow says so. A file is written whole, or the write fails and leaves something in
-- it; a theorem that needs to know what says so. The loops are structural recursions on the data,
-- so no bound on their rounds is needed; `decimal` takes as many rounds as the number, which has
-- fewer digits. The creation of a directory succeeds, and so does a serialization. A read of a
-- source file fills its buffer while it can. A transfer's file operations on files that are there
-- succeed, and a stretch under its lock is one step. A stream is the bytes that have arrived. A
-- record field named `record` in the source is `peer_record` here, and a newtype's field has a
-- name of its own. A clock reading and a random value are arguments.
--
-- Parameters: Core/Wire is the record of what the contracts call in ed25519_dalek, sha2 and
-- bincode; SignsSoundly and CodesSoundly state what those document. SessionWire, PayloadWire and
-- Codec are the records of what sessions, envelopes and frames call in bincode and iroh. Not
-- modelled: sockets, HTTP, QUIC, tasks, serde text forms, the system probes, the command line but
-- for run_copy_v1, and the web console, which are I/O around these contracts, and the services of
-- the runtime that are not named above.
pub mod Prelude
pub mod Core
pub mod Gatewayd
pub mod Cloudflare
pub mod Runtime
pub mod Fixtures
