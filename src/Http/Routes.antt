-- ===== src/Http/Routes.antt =====
-- backend/api/routes/batch_jobs.py and backend/api/routes/health.py.
use ansuman_gpu_inference_se.Prelude.{String, Bool, Option, none, some, if◌then◌else◌}
use ansuman_gpu_inference_se.Io.{
  AppError, app, Result, ok, raised, Io, pure, raise, lift, ◌>>=◌, ◌>>◌, try_except,
}
use ansuman_gpu_inference_se.Auth.Keys.{AuthContext, missing_api_key_error, ensure_model_allowed}
use ansuman_gpu_inference_se.Batch.Job.{BatchJobRecord, BatchJobResponse, Status, to_response}
use ansuman_gpu_inference_se.Batch.Store.{BatchJobStore}
use ansuman_gpu_inference_se.Batch.Queue.{BatchQueue}
use ansuman_gpu_inference_se.Batch.Service.{BatchJobCreateRequest, submit, get_job, cancel}

-- `BatchJobSubmitResponse`
pub record BatchJobSubmitResponse : Type 0 where
  pub job_id : String
  pub status : Status

-- `_auth_context`, of the request's state
abbrev pub required_context : Option AuthContext → Result AuthContext
required_context none = raised (app missing_api_key_error)
required_context (some context) = ok context

abbrev pub submit_response : BatchJobRecord → BatchJobSubmitResponse
submit_response job = record { job_id = job.id; status = job.status }

-- The routes; the state of a request is its context, where the middleware has set one.
module _ {W : Type 0} (store : BatchJobStore W) (queue : BatchQueue W) where
  unfoldable pub submit_batch_job :
      Option AuthContext → BatchJobCreateRequest → Io W BatchJobSubmitResponse
  submit_batch_job state request_body = do
    auth_context ← lift (required_context state)
    lift (ensure_model_allowed auth_context request_body.model)
    job ← submit store queue auth_context request_body
    pure (submit_response job)

  unfoldable pub get_batch_job : Option AuthContext → String → Io W BatchJobResponse
  unfolding to_response
  get_batch_job state job_id = do job ← get_job store queue job_id; pure (to_response job)

  unfoldable pub cancel_batch_job : Option AuthContext → String → Io W BatchJobResponse
  unfolding to_response
  cancel_batch_job state job_id = do job ← cancel store queue job_id; pure (to_response job)

abbrev pub service_not_ready : AppError
service_not_ready = record {
  message = "Service is not ready";
  code = "service_not_ready";
  status_code = 503;
  type = "server_error";
  param = none;
}

abbrev pub dependency_unavailable : AppError
dependency_unavailable = record {
  message = "Redis dependency is unavailable";
  code = "dependency_unavailable";
  status_code = 503;
  type = "server_error";
  param = none;
}

-- `redis_client.ping()`, where there is a client
abbrev ping_if : {W : Type 0} → Option (Io W (Unit {0})) → Io W (Unit {0})
ping_if none = pure tt
ping_if (some ping) = try_except ping (λ exc. raise (app dependency_unavailable))

-- `ready`
unfoldable pub ready : {W : Type 0} → Bool → Option (Io W (Unit {0})) → Io W String
ready is_ready ping =
    if is_ready then (ping_if ping >> pure "ready") else raise (app service_not_ready)
