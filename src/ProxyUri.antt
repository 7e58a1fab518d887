-- ===== src/ProxyUri.antt =====
-- service/proxyuri: what the core uses of it.
pub mod Unique
pub mod Examples
