-- ===== src/Execution.antt =====
-- internal/execution: the task board (task.go), its in-memory store and the application service.
pub mod Task
pub mod Store
pub mod Service
mod Examples
