-- ===== src/Hcm.antt =====
-- src/modules/hcm-sync: the client of the HCM, the realtime and batch services and the outbound
-- worker.
pub mod Client
pub mod Realtime
pub mod Batch
pub mod Reconcile
pub mod Worker
pub mod Delivery
pub mod Applying
pub mod Rows
pub mod Chunks
pub mod Ingestion
pub mod Due
pub mod Backoff
pub mod Attempt
pub mod Outcome
pub mod Reversal
pub mod Drift
pub mod Convergence
pub mod Overlap
pub mod Alone
pub mod Twice
pub mod Overlapping
pub mod Liveness
