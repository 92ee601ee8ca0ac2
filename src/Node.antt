-- ===== src/Node.antt =====
-- src/node.rs: `Node`, which drives the behaviour, the Kademlia queries and the life cycle of addresses.
pub mod State
pub mod Addresses
pub mod Probes
pub mod Discovery
pub mod Events
pub mod Swarm
pub mod Maintenance
pub mod Interactive
pub mod View
pub mod Frames
pub mod Candidates
pub mod Listing
pub mod Invariant
pub mod Preserved
pub mod Others
pub mod Reachable
pub mod Handled
pub mod Runs
pub mod Cache
pub mod Provenance
pub mod Withdrawn
pub mod Answered
pub mod Reconnect
pub mod Retries
pub mod Filter
pub mod Discovered
