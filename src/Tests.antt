-- ===== src/Tests.antt =====
-- Runs of the model on small inputs, and the theorems at such inputs.
mod Sample
mod Accounts
mod Approvals
mod Histories
mod Refusals
mod Balances
mod Deliveries
mod Batches
mod Outbound
mod Reconciliations
mod Repeats
mod Logs
mod Overlaps
mod Starts
mod Lives
