-- ===== src/Singbox.antt =====
-- core/singboxcore: the dynamic groups of proxy nodes.
pub mod Time
pub mod Policy
pub mod Node
pub mod Balancer
pub mod RevivalOrder
pub mod Errors
pub mod StartError
pub mod Manager
pub mod Group
pub mod Core
pub mod Examples
