-- ===== src/Wmstask.antt =====
-- internal/wmstask: the operator's part of the tasks that the warehouse system dispatches.
pub mod Rows
pub mod Statements
pub mod Service
mod Examples
