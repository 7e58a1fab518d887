-- ===== src/Singbox/Examples.antt =====
-- Runs of core/singboxcore on small inputs.
pub mod Sample
mod OneOpen
mod Nodes
mod Balancing
mod Groups
mod Cores
