-- ===== src/Service.antt =====
-- service/proxy: the services on nodes, groups and mappings that drive the core.
pub mod Errors
pub mod Rows
pub mod Health
pub mod Reconcile
pub mod Route
pub mod Examples
