-- ===== src/Singbox/Group/Sound.antt =====
-- core/singboxcore/group.go: the store of a group under each of its operations.
pub mod Members
pub mod Removal
pub mod Candidates
pub mod Dial
pub mod Traffic
pub mod Reach
