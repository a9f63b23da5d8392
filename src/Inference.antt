-- ===== src/Inference.antt =====
-- Serving a chat completion (backend/api/routes/chat_completions.py).
pub mod Services
pub mod Chat
pub mod Planned
pub mod Streaming
mod Examples
