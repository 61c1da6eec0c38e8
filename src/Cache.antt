-- ===== src/Cache.antt =====
-- src/cache: the keys, and the two managers over `moka::future::Cache`.
pub mod Keys
pub mod Moka
pub mod Transaction
pub mod Address
