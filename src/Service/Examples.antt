-- ===== src/Service/Examples.antt =====
-- The theorems on service/proxy at small inputs.
pub mod Tables
pub mod HealthRuns
pub mod Changes
pub mod Routes
