-- ===== src/Requests.antt =====
-- src/modules/timeoff-requests: the repository and the service.
pub mod Repository
pub mod Service
pub mod Approval
pub mod Atomic
pub mod Refusals
pub mod Closing
