-- ===== src/Analytics.antt =====
-- Usage analytics (backend/services/analytics): events, the bounded queue that collects them, and
-- the flusher that writes batches of them to ClickHouse.
pub mod Events
pub mod Collector
pub mod Flusher
pub mod Tables
mod Examples
