-- ===== src/Auth.antt =====
-- API keys (backend/services/auth, backend/repositories/api_key_repository.py).
pub mod Keys
mod Examples
