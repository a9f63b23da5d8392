-- ===== src/Audit.antt =====
-- Request audit records (backend/services/inference/request_lifecycle.py and usage_finalizer.py,
-- backend/repositories/request_audit_repository.py).
pub mod Lifecycle
pub mod Postgres
pub mod Memory
mod Examples
