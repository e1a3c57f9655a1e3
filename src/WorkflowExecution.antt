-- ===== src/WorkflowExecution.antt =====
-- src/aep/workflow_execution.py: the creation of a WorkflowExecution and its first event.
pub mod Creation
pub mod Started
pub mod Appended
pub mod Recorded
mod Examples
