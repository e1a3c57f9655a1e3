-- ===== src/Task.antt =====
-- src/aep/task_execution.py: the lifecycle of one attempt at a Task, over the store.
pub mod Status
pub mod Correlation
pub mod Lifecycle
pub mod Cases
pub mod Steps
pub mod NextKey
pub mod Retries
mod Examples
