-- ===== src/Ingestion.antt =====
-- internal/integration/adapters/kafka: what arrives from the warehouse system, and the relay of what
-- leaves for it.
pub mod Contract
pub mod Rows
pub mod Consumer
pub mod Relay
mod Examples
