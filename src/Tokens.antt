-- ===== src/Tokens.antt =====
-- Token accounting (backend/services/inference/token_accounting.py and the request schema).
pub mod Estimate
pub mod Plan
pub mod Usage
mod Examples
