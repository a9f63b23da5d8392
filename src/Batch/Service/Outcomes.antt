-- ===== src/Batch/Service/Outcomes.antt =====
-- What submitting and cancelling a job come to, over the in-memory store and queue.
use ansuman_gpu_inference_se.Prelude.{
  String, ◌≡◌, refl, true, false, some, arith, eq_refl, lookup, lookup-insert, Bool-cases, inl, inr,
}
use ansuman_gpu_inference_se.Json.{bool, get, put}
use ansuman_gpu_inference_se.Json.Dict.{get-put}
use ansuman_gpu_inference_se.Io.{app, ok, raised}
use ansuman_gpu_inference_se.Auth.Keys.{AuthContext}
use ansuman_gpu_inference_se.Batch.Job.{
  BatchJobRecord, Status, queued, running, succeeded, failed, cancelled, is_terminal,
  can_transition,
}
use ansuman_gpu_inference_se.Batch.Store.{create, transition, new_job, next_id}
use ansuman_gpu_inference_se.Batch.Store
use ansuman_gpu_inference_se.Batch.Queue.{enqueue}
use ansuman_gpu_inference_se.Batch.Memory.{Memory, memory_store, memory_queue}
use ansuman_gpu_inference_se.Batch.Service.{
  BatchJobCreateRequest, submit, cancel, get_job, is_true, batch_streaming_not_supported,
}

-- Over the in-memory store and queue a submitted job is stored as queued, with streaming switched off,
-- whether or not the queue takes it: a request is refused only when it asks for streaming, and then nothing is stored or queued.
pub submit_stores :
    (context : AuthContext) (request : BatchJobCreateRequest) (w : Memory)
    → let (r, w') = submit memory_store memory_queue context request w in
      (is_true (get "stream" request.payload) ≡ true
        → (r ≡ raised (app batch_streaming_not_supported)) × (w' ≡ w))
      × (is_true (get "stream" request.payload) ≡ false
          → (job : BatchJobRecord) × (r ≡ ok job)
            × (lookup job.id w'.0.jobs ≡ some job)
            × (job.status ≡ queued)
            × (get "stream" job.input_payload ≡ some (bool false)))
unfolding submit create enqueue
submit_stores context request w =
    let key = next_id w.0.new_ids in
    let job = new_job context (put "stream" (bool false) request.payload) request.model key in
    (
      (λ h. (ground (arith, h), ground (arith, h))),
      (λ h. (
        job,
        ground (arith, h),
        ground (arith, h, lookup-insert key key job w.0.jobs, eq_refl key),
        refl,
        ground (arith, get-put "stream" "stream" (bool false) request.payload),
      )),
    )

cancellable : (s : Status) → is_terminal s ≡ false → can_transition s cancelled ≡ true
unfolding can_transition
cancellable queued h = refl
cancellable running h = refl
cancellable succeeded h = ground (arith, h)
cancellable failed h = ground (arith, h)
cancellable cancelled h = ground (arith, h)

-- Cancelling a job that the in-memory store has succeeds: the job that is returned is the stored one and is in
-- a terminal state, and a job that was in one already is left as it is.
pub cancel_settles :
    (k : String) (job : BatchJobRecord) (w : Memory)
    → lookup k w.0.jobs ≡ some job
    → let (r, w') = cancel memory_store memory_queue k w in
      (job' : BatchJobRecord) × (r ≡ ok job')
      × (lookup k w'.0.jobs ≡ some job')
      × (is_terminal job'.status ≡ true)
      × (is_terminal job.status ≡ true → job' ≡ job)
unfolding cancel get_job Store.get transition
cancel_settles k job w e = elim (Bool-cases (is_terminal job.status)) [
  | inl h ↦ (job, ground (arith, e, h), ground (arith, e, h), h, λ _. refl)
  | inr h ↦
      let moved : BatchJobRecord = record job { status = cancelled } in
      let can = cancellable job.status h in
      (
        moved,
        ground (arith, e, h, can),
        ground (arith, e, h, can, lookup-insert k k moved w.0.jobs, eq_refl k),
        refl,
        λ t. ground (arith, h, t),
      )
]
