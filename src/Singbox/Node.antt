-- ===== src/Singbox/Node.antt =====
-- core/singboxcore/node.go, a node of a group: State, Marks, Revival and Snapshot hold the code,
-- the other modules what is proved of it.
pub mod State
pub mod Marks
pub mod Revival
pub mod Snapshot
pub mod Eligibility
pub mod Blacklisting
pub mod LatencyClass
pub mod Accounting
