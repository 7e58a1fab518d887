-- ===== src/Singbox/Core.antt =====
-- core/singboxcore/core.go: the core, which owns the groups and, through the box, the outbounds.
-- A core here has its box: the calls on a core or a box that is nil, which return
-- ErrCoreNotStarted or nothing, do not arise.
pub mod State
pub mod Groups
pub mod Nodes
pub mod Upkeep
pub mod Tags
pub mod Groupwise
pub mod GroupCalls
pub mod NodeCalls
pub mod Reach
pub mod Removal
