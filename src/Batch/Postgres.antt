-- ===== src/Batch/Postgres.antt =====
-- `PostgresBatchJobStore` of backend/services/batch/batch_service.py over
-- backend/repositories/batch_job_repository.py. The database is a parameter.
pub mod Uncommitted
use ansuman_gpu_inference_se.Prelude.{
  ℕ, ℤ, pos, String, Bool, true, false, not, ◌||◌, Option, none, some, List, map, take,
  if◌then◌else◌,
}
use ansuman_gpu_inference_se.Text.{Text}
use ansuman_gpu_inference_se.Json.{Json, Fields, end, str, obj, get, put}
use ansuman_gpu_inference_se.Io.{error, ok, Io, pure, raise, ◌>>=◌, ◌>>◌}
use ansuman_gpu_inference_se.Session.{Sessions, Table, Exit, returned, session_scope}
use ansuman_gpu_inference_se.Auth.Keys.{AuthContext}
use ansuman_gpu_inference_se.Batch.Job.{
  BatchJobRecord, Status, queued, succeeded, failed, is_cancelled, can_transition,
}
use ansuman_gpu_inference_se.Batch.Store.{BatchJobStore, UsageDict, usage_fields}

-- The row of backend/models/batch_job.py.
pub record BatchJob : Type 0 where
  pub id : String
  pub user_id : String
  pub project_id : String
  pub api_key_id : String
  pub model : String
  pub status : Status
  pub error_code : Option String
  pub error_message : Option Text
  pub request_count : ℤ
  pub completed_count : ℤ
  pub failed_count : ℤ
  pub metadata_json : Option Fields
  pub updated_at : ℕ

-- `dict(model_obj.metadata_json or {})`
abbrev pub metadata_of : BatchJob → Fields
metadata_of row = elim (row.metadata_json) [ none ↦ end | some fs ↦ fs ]

-- `raw if isinstance(raw, dict) else ...`
abbrev pub as_dict : Option Json → Option Fields
as_dict (some (obj fs)) = some fs
as_dict _ = none

abbrev pub or_empty : Option Fields → Fields
or_empty none = end
or_empty (some fs) = fs

-- `_record_from_model`
unfoldable pub record_from_model : BatchJob → BatchJobRecord
record_from_model row =
    let metadata = metadata_of row in
    record {
      id = row.id;
      user_id = row.user_id;
      project_id = row.project_id;
      api_key_id = row.api_key_id;
      model = row.model;
      status = row.status;
      input_payload = or_empty (as_dict (get "input_payload" metadata));
      result_payload = as_dict (get "result_payload" metadata);
      error_code = row.error_code;
      error_message = row.error_message;
      request_count = row.request_count;
      completed_count = row.completed_count;
      failed_count = row.failed_count;
      metadata = metadata;
    }

-- `isoformat` writes a time as text; `list_by_status` is the select by status in order of creation.
module _ {W T : Type 0} (sessions : Sessions W T) (batch_jobs : Table T BatchJob)
    (list_by_status : T → Status → ℕ → List BatchJob) (uuid4 : T → String) (utc_now : ℕ)
    (isoformat : ℕ → Text) where
  -- `flush` and `refresh`
  abbrev pub saved : BatchJob → Io T BatchJob
  saved row t = (ok row, batch_jobs.save row.id row t)

  -- `BatchJobRepository.create`
  unfoldable pub create_row : AuthContext → String → Fields → Io T BatchJob
  create_row auth_context model input_payload t =
      saved
        (record {
          id = uuid4 t;
          user_id = auth_context.user_id;
          project_id = auth_context.project_id;
          api_key_id = auth_context.api_key_id;
          model = model;
          status = queued;
          error_code = none;
          error_message = none;
          request_count = pos 1;
          completed_count = pos 0;
          failed_count = pos 0;
          metadata_json = some (put "input_payload" (obj input_payload) end);
          updated_at = utc_now;
        })
        t

  -- `BatchJobRepository.update_status`
  abbrev pub with_status : Status → BatchJob → BatchJob
  with_status status row = record row { status = status; updated_at = utc_now }

  -- `BatchJobRepository.mark_succeeded`
  abbrev pub row_succeeded : Fields → UsageDict → BatchJob → BatchJob
  row_succeeded result usage row = record row {
    metadata_json = some (
        put "completed_at" (str (isoformat utc_now)) (
          put "usage" (obj (usage_fields usage))
            (put "result_payload" (obj result) (metadata_of row))));
    status = succeeded;
    completed_count = pos 1;
    failed_count = pos 0;
    error_code = none;
    error_message = none;
    updated_at = utc_now;
  }

  -- `BatchJobRepository.mark_failed`
  abbrev pub row_failed : String → Text → BatchJob → BatchJob
  row_failed error_code error_message row = record row {
    metadata_json = some (put "completed_at" (str (isoformat utc_now)) (metadata_of row));
    status = failed;
    error_code = some error_code;
    error_message = some (take 1024 error_message);
    failed_count = pos 1;
    updated_at = utc_now;
  }

  -- The body of a method that writes to the row it found, unless `refuse` holds of the status.
  abbrev pub change_row :
      (Status → Bool)
      → (BatchJob → BatchJob)
      → Option BatchJob
      → Io T (Exit (Option BatchJobRecord))
  change_row refuse change none = pure (returned none)
  change_row refuse change (some row) =
      if refuse row.status
      then pure (returned none)
      else (saved (change row) >>= λ new. pure (returned (some (record_from_model new))))

  -- The body of the session loop of such a method.
  abbrev pub change_in :
      (Status → Bool) → (BatchJob → BatchJob) → String → Io T (Exit (Option BatchJobRecord))
  change_in refuse change job_id t = change_row refuse change (batch_jobs.find t job_id) t

  -- What follows a loop that has run to its end.
  abbrev pub or_none : Option (Option BatchJobRecord) → Io W (Option BatchJobRecord)
  or_none none = pure none
  or_none (some found) = pure found

  abbrev or_failed : Option BatchJobRecord → Io W BatchJobRecord
  or_failed none = raise (error "batch job creation failed")
  or_failed (some job) = pure job

  abbrev pub or_nil : Option (List BatchJobRecord) → Io W (List BatchJobRecord)
  or_nil none = pure List.[]
  or_nil (some jobs) = pure jobs

  unfoldable pub create : AuthContext → Fields → String → Io W BatchJobRecord
  unfolding create_row
  create auth_context payload model = do
    job ←
        session_scope sessions
          (do row ← create_row auth_context model payload; pure (returned (record_from_model row)))
    or_failed job

  abbrev pub found_record : Option BatchJob → Option BatchJobRecord
  found_record none = none
  found_record (some row) = some (record_from_model row)

  unfoldable pub get_job : String → Io W (Option BatchJobRecord)
  get_job job_id = do
    found ←
        session_scope sessions (λ t. (ok (returned (found_record (batch_jobs.find t job_id))), t))
    or_none found

  abbrev change_job :
      (Status → Bool) → (BatchJob → BatchJob) → String → Io W (Option BatchJobRecord)
  change_job refuse change job_id = do
    found ← session_scope sessions (change_in refuse change job_id)
    or_none found

  unfoldable pub transition : String → Status → Io W (Option BatchJobRecord)
  transition job_id target =
      change_job (λ s. not (can_transition s target)) (with_status target) job_id

  unfoldable pub mark_succeeded : String → Fields → UsageDict → Io W (Option BatchJobRecord)
  mark_succeeded job_id result usage = change_job is_cancelled (row_succeeded result usage) job_id

  unfoldable pub mark_failed : String → String → Text → Io W (Option BatchJobRecord)
  mark_failed job_id error_code error_message =
      change_job is_cancelled (row_failed error_code error_message) job_id

  unfoldable pub list_recoverable : ℕ → Io W (List BatchJobRecord)
  list_recoverable limit = do
    jobs ←
        session_scope sessions
          (λ t. (ok (returned (map record_from_model (list_by_status t queued limit))), t))
    or_nil jobs

  abbrev pub postgres_store : BatchJobStore W
  postgres_store = record {
    create = create;
    get = get_job;
    transition = transition;
    mark_succeeded = mark_succeeded;
    mark_failed = mark_failed;
    list_recoverable = list_recoverable;
  }
