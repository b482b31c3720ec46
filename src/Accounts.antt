-- ===== src/Accounts.antt =====
-- The account of a key: the days at hand and the days that its granted requests hold
-- (docs/trd/02-domain-model-and-invariants.md).
pub mod Held
pub mod Effects
pub mod Grants
pub mod Approvals
pub mod Settling
pub mod Deliveries
pub mod Tables
pub mod Owed
pub mod Working
pub mod Keeping
pub mod Owing
pub mod History
pub mod Reads
