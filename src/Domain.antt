-- ===== src/Domain.antt =====
-- The domain types and policies: src/shared/types, src/shared/domain and the error codes of
-- src/filters/domain-error.filter.ts.
pub mod Errors
pub mod Status
pub mod Days
pub mod Lifecycle
