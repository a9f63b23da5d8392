-- ===== src/Batch/Service.antt =====
-- `BatchJobService` of backend/services/batch/batch_service.py, behind the batch routes.
pub mod Outcomes
use ansuman_gpu_inference_se.Prelude.{String, Bool, true, false, Option, none, some, if◌then◌else◌}
use ansuman_gpu_inference_se.Json.{Json, Fields, bool, get, put}
use ansuman_gpu_inference_se.Io.{AppError, app, Io, pure, raise, try_except, ◌>>=◌, ◌>>◌}
use ansuman_gpu_inference_se.Auth.Keys.{AuthContext}
use ansuman_gpu_inference_se.Batch.Job.{BatchJobRecord, cancelled, is_terminal}
use ansuman_gpu_inference_se.Batch.Store.{BatchJobStore}
use ansuman_gpu_inference_se.Batch.Queue.{BatchQueue}

-- `BatchJobCreateRequest`, with `payload` for `model_dump(exclude_none=True)`.
pub record BatchJobCreateRequest : Type 0 where
  pub model : String
  pub payload : Fields

abbrev pub batch_streaming_not_supported : AppError
batch_streaming_not_supported = record {
  message = "Batch jobs do not support streaming requests";
  code = "batch_streaming_not_supported";
  status_code = 400;
  type = "invalid_request_error";
  param = some "stream";
}

abbrev pub batch_job_not_found : AppError
batch_job_not_found = record {
  message = "Batch job not found";
  code = "batch_job_not_found";
  status_code = 404;
  type = "invalid_request_error";
  param = none;
}

-- `x is True`
abbrev pub is_true : Option Json → Bool
is_true (some (bool true)) = true
is_true _ = false

module _ {W : Type 0} (store : BatchJobStore W) (queue : BatchQueue W) where
  unfoldable pub submit : AuthContext → BatchJobCreateRequest → Io W BatchJobRecord
  submit auth_context request_body =
      if is_true (get "stream" request_body.payload)
      then raise (app batch_streaming_not_supported)
      else (do
        job ←
            store.create auth_context (put "stream" (bool false) request_body.payload)
              request_body.model
        try_except (queue.enqueue job.id >> pure job) (λ _. pure job))

  abbrev or_not_found : Option BatchJobRecord → Io W BatchJobRecord
  or_not_found none = raise (app batch_job_not_found)
  or_not_found (some job) = pure job

  unfoldable pub get_job : String → Io W BatchJobRecord
  get_job job_id = do job ← store.get job_id; or_not_found job

  -- `cancelled or await self.get(job_id)`
  abbrev or_current : String → Option BatchJobRecord → Io W BatchJobRecord
  or_current job_id none = get_job job_id
  or_current job_id (some job) = pure job

  unfoldable pub cancel : String → Io W BatchJobRecord
  unfolding get_job
  cancel job_id = do
    job ← get_job job_id
    if is_terminal job.status
        then pure job
        else (do moved ← store.transition job_id cancelled; or_current job_id moved)
