-- ===== src/Lib.antt =====
-- A verification library for minti's clan daemon, the Go program under src/cland.
--
-- A clan is a group of machines that elect one Orchestrator by heartbeats with terms and leases. Each
-- daemon keeps its clan on disk, knows its peers through a registry, receives heartbeats and tool
-- calls over HTTP, and lets members in and out. The parts and the files that model them:
--
--   Base        lists, maps, sorting, results and lemmas that the parts share
--   Clan        src/cland/internal/state/state.go: the clan, its roster and its revocation list; the
--               store (load_clan for LoadClan, save_clan for SaveClan and so on); RevocationList and
--               RosterMerge for Digest, Merge, RosterDigest and MergeRosterStates
--   Window      the sliding window that peers.go and ratelimit.go write out alike
--   Peers       src/cland/internal/peers/peers.go: the registry; one function per method
--   Election    src/cland/internal/election: state.go here, engine.go in Select (selectCandidate,
--               selectScribe, quorum) and Engine (tick, emitHeartbeats, runElection,
--               OnHeartbeatReceived), handlers.go in Handlers
--   Toolexec    src/cland/internal/toolexec and src/cland/internal/crypto/keyprovider.go: Signing for
--               token.go, Replay for replay.go, Limits for ratelimit.go, Keys for the key provider,
--               Execute for handlers.go
--   Membership  src/cland/internal/membership: Invites for invite.go, Knocks for knock.go's store,
--               Roster, Operations and KnockOperations for the service's methods
--   Keyrotate   src/cland/internal/keyrotate: a member's store and handlers here, the coordinator and
--               the members that it talks to in Coordinator
--   Memory      src/cland/internal/memory: the graph's data and checks here, GraphMerge for graph.go's
--               Merge, Digest and ids, Service for service.go, Blueprint, Handlers and Scribe for the
--               files of those names
--   Sync        src/cland/internal/revocations/sync.go, src/cland/internal/rostersync/sync.go and
--               src/cland/internal/memory/sync.go: MaybeSync, one child module for each
--   Transport   src/cland/internal/transport and src/cland/internal/crypto/hmac.go: the MAC, the stamp and
--               the early checks here, Nonces for nonce.go, Guarding for server.go's middleware
--   Router      src/cland/internal/router/router.go: routes, proxies and headers
--   Scores      src/cland/internal/scores/rubric.go: the rubric and the window of failures
--   Agent       src/cland/internal/agent: registry.go, tools.go, loop.go and the events of events.go here,
--               Approvals for approvals.go
--   Examples    sample data, and each theorem applied to it
--
-- How they meet: the election reads the roster and the revocations from the store of Clan and the
-- members from the registry of Peers; a heartbeat carries the digests of Clan; membership writes
-- the roster that the election counts; the tool endpoint and the middleware read the keys that a
-- rotation changes; a heartbeat whose digest differs starts a synchronisation, which fetches and
-- merges.
--
-- State is passed explicitly, errors are values. A method that holds its lock throughout is one
-- function from the old state to the new. Where a lock is free, while heartbeats are posted or a
-- peer is dialled, what other requests do meanwhile is a function that the caller supplies;
-- Peers.Capacity and Membership.Distinct take steps in any order. Times are natural numbers of
-- nanoseconds, 0 for Go's zero time; the int64 milliseconds of a token may be negative. A Go map is
-- an association list in the order of iteration. A term is a uint64, and its increment wraps. All
-- loops are structural recursion over lists, or over the number of rounds that the source allows,
-- so no fuel is needed.
--
-- Parameters stand for what is not in the repository: HMAC, SHA-256 and hexadecimal encoding, the
-- answers of peers, of runtimes, of the model and of the approver, the decoding of JSON, the
-- executor of a tool, random bytes. Theorems about digests hold for every hash function; the one on
-- rotation takes as hypothesis that decoding undoes encoding and that no digest is empty, and those
-- on the shared graph that no two different nodes of one id have the same times, revisions and
-- hashes.
--
-- Go's `s[:n]` counts bytes and may split a character; String is text here, so that cut is a parameter.
--
-- Routing between members runs the router's handler at each member, up to a number of hops after
-- which the client before gives up.
--
-- Not modelled: floating-point scores, TLS and the pin of certificates, discovery, logging, the
-- command line, and the other programs of the repository (runtime adapter, MCP servers, pack
-- manager, installers): input and output, or not reached yet.
pub mod Base
pub mod Clan
pub mod Window
pub mod Peers
pub mod Election
pub mod Toolexec
pub mod Membership
pub mod Keyrotate
pub mod Memory
pub mod Sync
pub mod Transport
pub mod Router
pub mod Scores
pub mod Agent
pub mod Examples
