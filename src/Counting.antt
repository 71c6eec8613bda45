-- ===== src/Counting.antt =====
-- internal/inventory: cycle counts.
pub mod Task
pub mod Service
mod Examples
