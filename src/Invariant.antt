-- ===== src/Invariant.antt =====
-- What holds of the database between two calls: a predicate that every statement keeps (Writes) is
-- kept by every operation, every call and every history of calls.
pub mod Writes
pub mod Balances
pub mod Approval
pub mod Requests
pub mod Hcm
pub mod Batch
pub mod Calls
pub mod Sound
pub mod Recorded
pub mod Versions
pub mod Overlap
pub mod Lifecycle
pub mod Granted
pub mod Phases
