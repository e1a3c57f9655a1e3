-- ===== src/Store.antt =====
-- src/aep/runtime_store.py: the persistence boundary of the runtime objects, as the in-memory store
-- implements it.
pub mod State
pub mod Snapshot
pub mod Objects
pub mod Leases
pub mod Transitions
pub mod Rules
pub mod Evolution
pub mod Calls
pub mod WellFormed
pub mod History
pub mod Contracts
pub mod Identity
pub mod Transactions
mod Examples
