-- ===== src/Batch/Memory.antt =====
-- The in-memory store and the in-memory queue of backend/services/batch, side by side in one world.
use ansuman_gpu_inference_se.Io.{Io}
use ansuman_gpu_inference_se.Batch.Store
use ansuman_gpu_inference_se.Batch.Store.{BatchJobStore, JobTable}
use ansuman_gpu_inference_se.Batch.Queue
use ansuman_gpu_inference_se.Batch.Queue.{BatchQueue, Pending}

abbrev pub Memory : Type 0
Memory = JobTable × Pending

abbrev pub on_jobs : {A : Type 0} → Io JobTable A → Io Memory A
on_jobs m (t, q) = let (r, t') = m t in (r, (t', q))

abbrev pub on_queue : {A : Type 0} → Io Pending A → Io Memory A
on_queue m (t, q) = let (r, q') = m q in (r, (t, q'))

abbrev pub memory_store : BatchJobStore Memory
memory_store = record {
  create = λ c p m. on_jobs (Store.create c p m);
  get = λ k. on_jobs (Store.get k);
  transition = λ k s. on_jobs (Store.transition k s);
  mark_succeeded = λ k r u. on_jobs (Store.mark_succeeded k r u);
  mark_failed = λ k c m. on_jobs (Store.mark_failed k c m);
  list_recoverable = λ n. on_jobs (Store.list_recoverable n);
}

abbrev pub memory_queue : BatchQueue Memory
memory_queue = record {
  enqueue = λ j. on_queue (Queue.enqueue j);
  dequeue = on_queue Queue.dequeue;
  is_in = λ j. on_queue (Queue.is_in j);
}
