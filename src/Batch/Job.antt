-- ===== src/Batch/Job.antt =====
-- Job records and states: the first part of backend/services/batch/batch_service.py, and
-- backend/schemas/batch_job.py.
pub mod States
use ansuman_gpu_inference_se.Prelude.{
  ℤ, pos, String, Bool, true, false, Option, none, some, if◌then◌else◌,
}
use ansuman_gpu_inference_se.Json.{Fields, end}
use ansuman_gpu_inference_se.Text.{Text}

-- The strings `QUEUED`, `RUNNING`, `SUCCEEDED`, `FAILED` and `CANCELLED`.
pub data Status : Type 0 where
  queued running succeeded failed cancelled : Status

-- `s in TERMINAL_STATUSES`
abbrev pub is_terminal : Status → Bool
is_terminal succeeded = true
is_terminal failed = true
is_terminal cancelled = true
is_terminal _ = false

abbrev pub is_queued : Status → Bool
is_queued queued = true
is_queued _ = false

abbrev pub is_cancelled : Status → Bool
is_cancelled cancelled = true
is_cancelled _ = false

-- `can_transition`: the table `ALLOWED_TRANSITIONS`.
unfoldable pub can_transition : Status → Status → Bool
can_transition queued running = true
can_transition queued cancelled = true
can_transition queued failed = true
can_transition running succeeded = true
can_transition running failed = true
can_transition running cancelled = true
can_transition _ _ = false

pub record BatchJobRecord : Type 0 where
  pub id : String
  pub user_id : String
  pub project_id : String
  pub api_key_id : String
  pub model : String
  pub status : Status
  pub input_payload : Fields
  pub result_payload : Option Fields
  pub error_code : Option String
  pub error_message : Option Text
  pub request_count : ℤ
  pub completed_count : ℤ
  pub failed_count : ℤ
  pub metadata : Fields

-- `BatchJobResponse`
pub record BatchJobResponse : Type 0 where
  pub job_id : String
  pub status : Status
  pub model : String
  pub request_count : ℤ
  pub completed_count : ℤ
  pub failed_count : ℤ
  pub result : Option Fields
  pub error_code : Option String
  pub error_message : Option Text

unfoldable pub to_response : BatchJobRecord → BatchJobResponse
to_response job = record {
  job_id = job.id;
  status = job.status;
  model = job.model;
  request_count = job.request_count;
  completed_count = job.completed_count;
  failed_count = job.failed_count;
  result = job.result_payload;
  error_code = job.error_code;
  error_message = job.error_message;
}
