-- ===== src/Dag.antt =====
-- src/aep/task_dag.py: the Task graph of a Workflow and its execution plan.
pub mod Counts
pub mod Graph
pub mod Release
pub mod Groups
pub mod Layers
pub mod Resolve
pub mod Declared
pub mod Faults
pub mod Plan
pub mod Resolution
mod Examples
