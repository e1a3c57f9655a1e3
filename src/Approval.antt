-- ===== src/Approval.antt =====
-- src/aep/approval.py: the decisions of reviewers on requests for approval.
pub mod Gate
pub mod Request
pub mod Authorized
pub mod Refused
pub mod Requested
pub mod Rejection
pub mod Composed
mod Examples
mod RequestExamples
