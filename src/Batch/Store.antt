-- ===== src/Batch/Store.antt =====
-- The job stores of backend/services/batch/batch_service.py: the protocol `BatchJobStore` and
-- `InMemoryBatchJobStore`.
pub mod Cancelled
pub mod Onward
use ansuman_gpu_inference_se.Prelude.{
  ℕ, ℤ, pos, String, Bool, Option, none, some, List, [], ◌∷◌, take, not, lookup, insert, ◌||◌,
  if◌then◌else◌,
}
use ansuman_gpu_inference_se.Json.{Fields, Json, end, put, obj, field, int}
use ansuman_gpu_inference_se.Text.{Text}
use ansuman_gpu_inference_se.Io.{Io, ok, pure}
use ansuman_gpu_inference_se.Auth.Keys.{AuthContext}
use ansuman_gpu_inference_se.Batch.Job.{
  BatchJobRecord, Status, queued, running, succeeded, failed, cancelled, is_queued, is_cancelled,
  can_transition,
}

-- `usage_dict`
pub record UsageDict : Type 0 where
  pub prompt_tokens : ℤ
  pub completion_tokens : ℤ
  pub total_tokens : ℤ

abbrev pub usage_fields : UsageDict → Fields
usage_fields u = field "prompt_tokens" (int u.prompt_tokens) (
    field "completion_tokens" (int u.completion_tokens)
      (field "total_tokens" (int u.total_tokens) end))

-- The protocol `BatchJobStore`.
pub record BatchJobStore (W : Type 0) : Type 0 where
  pub create : AuthContext → Fields → String → Io W BatchJobRecord
  pub get : String → Io W (Option BatchJobRecord)
  pub transition : String → Status → Io W (Option BatchJobRecord)
  pub mark_succeeded : String → Fields → UsageDict → Io W (Option BatchJobRecord)
  pub mark_failed : String → String → Text → Io W (Option BatchJobRecord)
  pub list_recoverable : ℕ → Io W (List BatchJobRecord)

-- The attributes `jobs`, a dict in insertion order, and the ids that `uuid4` will draw.
pub record JobTable : Type 0 where
  pub jobs : List (String × BatchJobRecord)
  pub new_ids : List String

-- `f"job_{uuid4().hex}"`; a program that draws past the end of the list is not modelled.
abbrev pub next_id : List String → String
next_id [] = "job_"
next_id (i ∷ is) = i

abbrev rest_ids : List String → List String
rest_ids [] = []
rest_ids (i ∷ is) = is

-- What the program writes to the object in `jobs[job_id]`.
abbrev write : String → BatchJobRecord → JobTable → JobTable
write job_id job w = record w { jobs = insert job_id job w.jobs }

abbrev pub new_job : AuthContext → Fields → String → String → BatchJobRecord
new_job auth_context payload model id = record {
  id = id;
  user_id = auth_context.user_id;
  project_id = auth_context.project_id;
  api_key_id = auth_context.api_key_id;
  model = model;
  status = queued;
  input_payload = payload;
  result_payload = none;
  error_code = none;
  error_message = none;
  request_count = pos 1;
  completed_count = pos 0;
  failed_count = pos 0;
  metadata = end;
}

unfoldable pub create : AuthContext → Fields → String → Io JobTable BatchJobRecord
unfolding insert
create auth_context payload model w =
    let job = new_job auth_context payload model (next_id w.new_ids) in
    (ok job, record { jobs = insert job.id job w.jobs; new_ids = rest_ids w.new_ids })

unfoldable pub get : String → Io JobTable (Option BatchJobRecord)
unfolding lookup
get job_id w = (ok (lookup job_id w.jobs), w)

-- A write to the job that a lookup found, unless there is none or `refuse` holds of it.
abbrev pub update_unless :
    (BatchJobRecord → Bool)
    → (BatchJobRecord → BatchJobRecord)
    → String
    → Option BatchJobRecord
    → Io JobTable (Option BatchJobRecord)
update_unless refuse change job_id none w = (ok none, w)
update_unless refuse change job_id (some job) w =
    if refuse job then (ok none, w) else (ok (some (change job)), write job_id (change job) w)

-- `not can_transition(job.status, target_status)`
abbrev pub refuses_transition : Status → BatchJobRecord → Bool
refuses_transition target job = not (can_transition job.status target)

-- `job.status == CANCELLED`
abbrev pub refuses_mark : BatchJobRecord → Bool
refuses_mark job = is_cancelled job.status

abbrev pub move_to : Status → BatchJobRecord → BatchJobRecord
move_to target job = record job { status = target }

abbrev pub with_success : Fields → UsageDict → BatchJobRecord → BatchJobRecord
with_success result usage job = record job {
  status = succeeded;
  result_payload = some result;
  completed_count = pos 1;
  failed_count = pos 0;
  metadata = put "usage" (obj (usage_fields usage)) job.metadata;
}

abbrev pub with_failure : String → Text → BatchJobRecord → BatchJobRecord
with_failure error_code error_message job = record job {
  status = failed;
  error_code = some error_code;
  error_message = some error_message;
  failed_count = pos 1;
}

unfoldable pub transition : String → Status → Io JobTable (Option BatchJobRecord)
transition job_id target w =
    update_unless (refuses_transition target) (move_to target) job_id (lookup job_id w.jobs) w

unfoldable pub mark_succeeded : String → Fields → UsageDict → Io JobTable (Option BatchJobRecord)
mark_succeeded job_id result usage w =
    update_unless refuses_mark (with_success result usage) job_id (lookup job_id w.jobs) w

unfoldable pub mark_failed : String → String → Text → Io JobTable (Option BatchJobRecord)
mark_failed job_id error_code error_message w =
    update_unless refuses_mark (with_failure error_code error_message) job_id (lookup job_id w.jobs)
      w

-- `[job for job in self.jobs.values() if job.status == QUEUED]`
abbrev pub queued_jobs : List (String × BatchJobRecord) → List BatchJobRecord
queued_jobs [] = []
queued_jobs ((k, job) ∷ js) =
    let rest = queued_jobs js in if is_queued job.status then job ∷ rest else rest

unfoldable pub list_recoverable : ℕ → Io JobTable (List BatchJobRecord)
list_recoverable limit w = (ok (take limit (queued_jobs w.jobs)), w)

abbrev pub in_memory : BatchJobStore JobTable
in_memory = record {
  create = create;
  get = get;
  transition = transition;
  mark_succeeded = mark_succeeded;
  mark_failed = mark_failed;
  list_recoverable = list_recoverable;
}
