-- ===== src/Db.antt =====
-- src/db: the tables and their statements, the connection with its faults, and the functions of
-- address.rs and transaction.rs.
pub mod Tables
pub mod Exec
pub mod Address
pub mod Transaction
pub mod Invariant
pub mod Keeps
pub mod Spares
pub mod Atomic
pub mod Observed
pub mod Query
pub mod Coherence
pub mod Past
pub mod RoundTrip
pub mod Service
pub mod Schema
