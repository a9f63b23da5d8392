-- ===== src/Lib.antt =====
-- A model of the inference gateway in backend/: it takes OpenAI-compatible requests, admits them
-- against limits kept in Redis, passes them on to a vLLM server, and accounts for what they used;
-- batch jobs take the same way from a queue.
--
-- How the parts fit together: the middleware (Http/Authenticate, backend/middlewares/auth.py) asks
-- the key service (Auth/Keys, backend/services/auth) who calls. The chat handler (Inference/Chat and
-- Inference/Streaming, backend/api/routes/chat_completions.py) plans the tokens of a request (Tokens,
-- backend/services/inference/token_accounting.py), admits it (RateLimit, backend/services/rate_limit),
-- starts its audit (Audit, backend/services/inference and
-- backend/repositories/request_audit_repository.py), calls vLLM (Vllm, backend/services/vllm), settles
-- tokens and audit, and hands a usage event to the collector (Analytics, backend/services/analytics).
-- The batch service (Batch/Service), its stores (Batch/Store in memory, Batch/Postgres with
-- backend/repositories/batch_job_repository.py), its queue (Batch/Queue), scanner (Batch/Recovery) and
-- worker (Batch/Worker) model backend/services/batch; the worker calls the same admission, audit and
-- vLLM services. Batch/Contract is what both job stores promise. Http/Routes, Http/Models and
-- Http/Errors are the batch, health and model routes and the error bodies (backend/api/routes,
-- backend/core/errors.py, backend/middlewares/error_handler.py). Http/Stack puts the middlewares in the
-- order of backend/main.py: metrics (Observability/Metrics, backend/services/observability/metrics.py),
-- request ids (Http/RequestId, backend/middlewares/request_id.py), authentication. Observability and
-- Observability/Sentry are what is scrubbed from an event and what is reported
-- (backend/services/observability/sentry.py). App is the state of the application, with the services
-- that are built on demand, its start and its end (backend/main.py, backend/core/lifecycle.py), Config
-- the computed settings (backend/core/config.py), Vllm/Runtime the command that starts vLLM and the
-- wait for it (backend/services/vllm/runtime.py), Schema the migration (alembic/versions). Workers are
-- the processes of backend/workers around the batch worker, the scanner and the flusher, and
-- Analytics/Tables the ClickHouse tables (backend/scripts/create_clickhouse_tables.py).
--
-- How state and effects are modelled (Io): a method that awaits is a function of a world `W` into a
-- `Result` and a world; it returns or raises, and keeps what it changed before a raise. An exception is
-- an `AppError`, another `Exception` with its text, or `asyncio.CancelledError`, which `except
-- Exception` lets pass. The handler and the worker run over records of the services that they call,
-- with the world left open; a theorem names the laws of the services that it uses, and an example
-- (the modules called Examples) has a concrete world that meets them. In-memory services have their own
-- state as the world. Objects that a call mutates, such as a lease, stand beside the world.
-- Functions keep the names of the source, without a leading underscore; a method is named by the module
-- of its class. `get` of the batch service and of the Postgres store is `get_job`, `contains` of a queue
-- is `is_in`.
--
-- Parameters, for what is no code of this repository: Redis (RateLimit/Redis, with the laws of its
-- counters; a command that raises may have been executed or not), the database and SQLAlchemy's
-- sessions (Session), httpx (Vllm/Client), SHA-256, uuid4, the clock, json.loads, pydantic's validation of a stored payload, ClickHouse's insert, and Sentry.
-- Async generators are modelled where it matters: Session models `async for session in
-- session_scope(...)`, whose body is left by `return` in every caller, so that the generator is closed
-- at its yield and does not commit. Vllm/Stream is the sequence of lines, waits and failures of an
-- upstream. A scan for lost jobs is stated over any store and queue that answer (Batch/Recovery/Missing);
-- Batch/Recovery/Backends has the two pairs that the program runs it over.
--
-- Numbers: Python integers are integers without bounds (Prelude/Int), counts are natural numbers, and a
-- JSON float is a fraction by a power of two. A text that the program walks is the list of its code
-- points (Text). A decimal is printed on fuel, one more than the number, which is enough as each step
-- divides by ten (Text/Decimal). The wait for vLLM and the loop of the flusher take one unit of fuel
-- for each turn: the time-out, and the number of rounds until the event is set, bound them. The loops of
-- the worker processes take one for each turn, and end behind the first turn that raises. The retries
-- of a flush count down from the configured number. No other function needs fuel: loops are structural.
--
-- Reference definitions, which no code is mapped to: the database that applies the migration
-- (Schema/Database), the shell that reads a command (Vllm/Runtime/Shell), the table of jobs of
-- Batch/Contract, and the columns that ClickHouse stores (Analytics/Tables/Fit). Prometheus is the list
-- of the calls that reach it.
--
-- Not modelled: reading settings from the environment, logging, the declarations of the other tables,
-- the other scripts, the construction of the services of a worker process, the spool file, the text of
-- /metrics, and the regular expressions of the Sentry scrubber, which are a parameter. They are wiring,
-- declarations, input and output, or calls of libraries.
pub mod Prelude
pub mod Io
pub mod Text
pub mod Json
pub mod Session
pub mod Auth
pub mod RateLimit
pub mod Tokens
pub mod Audit
pub mod Analytics
pub mod Vllm
pub mod Inference
pub mod Batch
pub mod Http
pub mod Observability
pub mod Config
pub mod App
pub mod Schema
pub mod Workers
