-- ===== src/Service/Health.antt =====
-- service/proxy: the health of the nodes, kept in memory and written to the database in batches
-- (health_batcher.go, and the calls of health.go that change it).
pub mod State
pub mod Record
pub mod Store
pub mod Batcher
pub mod Flush
pub mod Changes
pub mod Evolution
pub mod ChangeLaws
pub mod Window
pub mod Payloads
pub mod Settling
pub mod Writing
pub mod Coherence
pub mod Flushing
pub mod FlushLaws
pub mod Loading
pub mod LoadLaws
pub mod Restart
pub mod Errors
pub mod Blacklisting
pub mod Readers
