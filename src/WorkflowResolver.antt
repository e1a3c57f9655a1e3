-- ===== src/WorkflowResolver.antt =====
-- src/aep/workflow_resolver.py: the Workflows whose triggers name a normalized event.
pub mod Resolver
pub mod Subscribed
mod Examples
