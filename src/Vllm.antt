-- ===== src/Vllm.antt =====
-- The vLLM upstream (backend/services/vllm): the server-sent events that are relayed from it, and the
-- answers and errors of its HTTP API.
pub mod Stream
pub mod Client
pub mod Runtime
mod Examples
