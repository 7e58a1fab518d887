-- ===== src/Service/Reconcile.antt =====
-- service/proxy/runtime_reconcile.go: the mappings that a change of nodes or groups affects.
pub mod Closure
pub mod Sweeping
pub mod Affected
pub mod Reaching
pub mod Spreading
pub mod Rounds
pub mod Completeness
