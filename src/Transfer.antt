-- ===== src/Transfer.antt =====
-- internal/inventory: transfers of stock between two locations of a warehouse.
pub mod Service
pub mod Effects
mod Examples
