-- ===== src/Batch.antt =====
-- Batch jobs (backend/services/batch): job records and their states, the stores, the queue, the
-- service behind the routes, the recovery scanner and the worker.
pub mod Job
pub mod Store
pub mod Queue
pub mod Memory
pub mod Postgres
pub mod Contract
pub mod Service
pub mod Recovery
pub mod Worker
mod Examples
