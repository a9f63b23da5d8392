-- ===== src/Batch/Recovery.antt =====
-- `BatchRecoveryScanner` of backend/services/batch/recovery_scanner.py.
pub mod Missing
pub mod Backends
use ansuman_gpu_inference_se.Prelude.{ℕ, ◌+◌, List, [], ◌∷◌, if◌then◌else◌}
use ansuman_gpu_inference_se.Io.{Io, pure, ◌>>=◌, ◌>>◌}
use ansuman_gpu_inference_se.Batch.Job.{BatchJobRecord}
use ansuman_gpu_inference_se.Batch.Store.{BatchJobStore}
use ansuman_gpu_inference_se.Batch.Queue.{BatchQueue}

module _ {W : Type 0} (store : BatchJobStore W) (queue : BatchQueue W) where
  -- The `for` loop, with `requeued` so far.
  unfoldable pub scan : List BatchJobRecord → ℕ → Io W ℕ
  scan [] requeued = pure requeued
  scan (job ∷ jobs) requeued = do
    found ← queue.is_in job.id
    if found then scan jobs requeued else (do queue.enqueue job.id; scan jobs (requeued + 1))

  unfoldable pub reenqueue_missing : ℕ → Io W ℕ
  reenqueue_missing limit = do jobs ← store.list_recoverable limit; scan jobs 0
