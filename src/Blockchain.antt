-- ===== src/Blockchain.antt =====
-- src/blockchain: the batch manager, the extraction of transactions, the workers and the polling.
pub mod Batch
pub mod Extract
pub mod Services
pub mod Processor
pub mod Polling
pub mod Lock
pub mod Client
pub mod Workers
pub mod Pipeline
pub mod System
