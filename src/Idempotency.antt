-- ===== src/Idempotency.antt =====
-- src/modules/idempotency: the fingerprint of a request (fingerprint.ts), the records
-- (idempotency.service.ts) and the interceptor (idempotency.interceptor.ts).
pub mod Fingerprint
pub mod Service
pub mod Replay
pub mod Canonical
