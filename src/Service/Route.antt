-- ===== src/Service/Route.antt =====
-- service/proxy/runtime_route.go: which node each mapping uses.
pub mod State
pub mod Selected
pub mod Ending
pub mod Steps
pub mod Leading
pub mod Finding
pub mod Order
pub mod Sorted
