-- ===== src/Receiving.antt =====
-- internal/execution/receiving: the receipt of an order's lines.
pub mod Task
mod Examples
