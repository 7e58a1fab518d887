-- ===== src/Singbox/Group.antt =====
-- core/singboxcore/group.go: a dynamic group of nodes, its connections and its probes. State,
-- Members, Candidates, Dial, Traffic, Probe and Snapshot hold the code, the other modules what is
-- proved of it.
pub mod State
pub mod Members
pub mod Candidates
pub mod Dial
pub mod Traffic
pub mod Probe
pub mod Snapshot
pub mod Ledger
pub mod Soundness
pub mod Sound
pub mod Selection
pub mod Ordering
pub mod Offer
pub mod Blame
pub mod Dialed
pub mod LeastLatency
pub mod Revived
pub mod Liveness
