-- ===== src/Http.antt =====
-- The HTTP edge: the error bodies of backend/core/errors.py, the middlewares (backend/middlewares)
-- and the routes of batch jobs and health (backend/api/routes).
pub mod Errors
pub mod Authenticate
pub mod Routes
pub mod Models
pub mod RequestId
pub mod Stack
mod Examples
