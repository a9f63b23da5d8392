-- ===== src/Workers.antt =====
-- backend/workers: the processes that run the batch worker, the recovery scanner and the flusher until
-- something stops them, and what they close and report then.
pub mod Ends
pub mod Idle
mod Examples
use ansuman_gpu_inference_se.Prelude.{
  ℕ, zero, suc, Bool, true, false, Option, none, some, List, [], String, if◌then◌else◌,
}
use ansuman_gpu_inference_se.Io.{
  Exc, Result, ok, raised, Io, pure, raise, ◌>>=◌, ◌>>◌, try_except, finally,
}
use ansuman_gpu_inference_se.Analytics.Events.{AnalyticsTable}
use ansuman_gpu_inference_se.Analytics.Collector.{Collector}
use ansuman_gpu_inference_se.Analytics.Flusher.{Rows, Flusher, run_forever}
use ansuman_gpu_inference_se.Batch.Store.{BatchJobStore}
use ansuman_gpu_inference_se.Batch.Queue.{BatchQueue}
use ansuman_gpu_inference_se.Batch.Recovery.{reenqueue_missing}
use ansuman_gpu_inference_se.Batch.Worker.{Worker, process_one}

-- The clients of a process that are open.
pub record Clients : Type 0 where
  pub vllm_client : Bool
  pub redis_client : Bool
  pub engine : Bool

abbrev pub without_vllm_client : Clients → Clients
without_vllm_client c = record c { vllm_client = false }

abbrev pub without_redis_client : Clients → Clients
without_redis_client c = record c { redis_client = false }

abbrev pub without_engine : Clients → Clients
without_engine c = record c { engine = false }

module _ {W : Type 0} where
  -- `while True: turn` for as many turns as there is fuel: `none` says that it still runs, and else
  -- this is the exception that ended it.
  unfoldable pub forever : Io W (Unit {0}) → ℕ → W → Option (Exc × W)
  forever turn zero w = none
  forever turn (suc fuel) w =
      let (r, w') = turn w in
      let rest = forever turn fuel w' in elim r [ ok _ ↦ rest | raised e ↦ some (e, w') ]

  -- The close of a client, which is closed when the call returns.
  abbrev pub closing : (Clients → Clients) → Io W (Unit {0}) → Io (Clients × W) (Unit {0})
  closing mark close (c, w) =
      let (r, w') = close w in
      elim r [ ok _ ↦ (ok tt, (mark c, w')) | raised e ↦ (raised e, (c, w')) ]

  -- `try: while True: ... / finally: cleanup`
  abbrev pub guarded :
      Clients
      → Io (Clients × W) (Unit {0})
      → Option (Exc × W)
      → Option (Result (Unit {0}) × (Clients × W))
  guarded clients cleanup none = none
  guarded clients cleanup (some (e, w)) = some (finally (raise e) cleanup (clients, w))

  -- `try: asyncio.run(main()) / except Exception as exc: capture_exception(exc, ...); raise`
  abbrev pub report_and_raise : (Exc → W → W) → Exc → Io (Clients × W) (Unit {0})
  report_and_raise capture e (c, w) = (raised e, (c, capture e w))

  abbrev pub reported :
      (Exc → W → W)
      → Option (Result (Unit {0}) × (Clients × W))
      → Option (Result (Unit {0}) × (Clients × W))
  reported capture none = none
  reported capture (some (r, s)) = some (try_except (λ t. (r, t)) (report_and_raise capture) s)

-- The loop of backend/workers/batch_worker.py; `sleep` takes seconds.
unfoldable pub batch_worker_turn :
    {W L : Type 0} → Worker W L → (ℕ → Io W (Unit {0})) → Io W (Unit {0})
batch_worker_turn worker sleep =
    process_one worker >>= λ processed. if processed then pure tt else sleep 1

-- The loop of backend/workers/recovery_scanner.py.
unfoldable pub recovery_scanner_turn :
    {W : Type 0} → BatchJobStore W → BatchQueue W → (ℕ → Io W (Unit {0})) → Io W (Unit {0})
recovery_scanner_turn store queue sleep = reenqueue_missing store queue 100 >> sleep 5

module _ {W : Type 0} (close_vllm aclose dispose : Io W (Unit {0})) (capture : Exc → W → W) where
  abbrev pub batch_worker_cleanup : Io (Clients × W) (Unit {0})
  batch_worker_cleanup =
      closing without_vllm_client close_vllm
      >> (closing without_redis_client aclose >> closing without_engine dispose)

  -- The process of backend/workers/batch_worker.py, on the clients that it opens.
  unfoldable pub batch_worker_main :
      {L : Type 0}
      → Worker W L
      → (ℕ → Io W (Unit {0}))
      → ℕ
      → W
      → Option (Result (Unit {0}) × (Clients × W))
  batch_worker_main worker sleep fuel w =
      let clients : Clients = record { vllm_client = true; redis_client = true; engine = true } in
      reported capture
        (guarded clients batch_worker_cleanup (forever (batch_worker_turn worker sleep) fuel w))

  abbrev pub recovery_scanner_cleanup : Io (Clients × W) (Unit {0})
  recovery_scanner_cleanup = closing without_redis_client aclose >> closing without_engine dispose

  -- The process of backend/workers/recovery_scanner.py, which has no vLLM client.
  unfoldable pub recovery_scanner_main :
      BatchJobStore W
      → BatchQueue W
      → (ℕ → Io W (Unit {0}))
      → ℕ
      → W
      → Option (Result (Unit {0}) × (Clients × W))
  recovery_scanner_main store queue sleep fuel w =
      let clients : Clients = record { vllm_client = false; redis_client = true; engine = true } in
      reported capture (
        guarded clients recovery_scanner_cleanup
          (forever (recovery_scanner_turn store queue sleep) fuel w))

-- The flusher of backend/workers/analytics_flusher.py, with a collector of its own.
abbrev pub new_flusher : ℕ → Flusher
new_flusher analytics_queue_size = record {
  collector = record {
    queue = [];
    max_size = analytics_queue_size;
    tasks = [];
    dropped_non_critical = 0;
    spooled_critical = 0;
  };
  flush_failures = 0;
}

-- The process of backend/workers/analytics_flusher.py; a flush has three attempts by default.
unfoldable pub analytics_flusher_main :
    {W : Type 0}
    → (AnalyticsTable → Rows → List String → Io W (Unit {0}))
    → (ℕ → Io W (Unit {0}))
    → (Exc → W → W)
    → (W → Bool)
    → (W → W)
    → Io W (Unit {0})
    → ℕ
    → ℕ
    → ℕ
    → W
    → Option (Result (Unit {0}) × (Flusher × W))
analytics_flusher_main insert sleep report is_set set wait queue_size batch_size fuel w =
    run_forever insert sleep report is_set set wait batch_size 3 fuel (new_flusher queue_size, w)
