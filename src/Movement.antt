-- ===== src/Movement.antt =====
-- internal/execution/movement: putaway, picking and replenishment tasks that move stock.
pub mod Task
pub mod Stock
pub mod Database
pub mod Service
mod Examples
mod Runs
