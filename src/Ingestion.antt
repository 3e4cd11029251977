-- ===== src/Ingestion.antt =====
-- services/ingestion: the write path of telemetry.
pub mod Domain
pub mod Batch
pub mod Crc
pub mod Binary
pub mod Positional
pub mod Compact
pub mod Service
pub mod Handler
pub mod ApiKeys
