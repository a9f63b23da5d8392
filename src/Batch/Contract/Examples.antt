-- ===== src/Batch/Contract/Examples.antt =====
-- A job in both stores, and the theorem there.
use ansuman_gpu_inference_se.Prelude.{
  pos, String, ◌≡◌, Option, none, some, List, [], ◌∷◌, lookup, insert,
}
use ansuman_gpu_inference_se.Text.{codes}
use ansuman_gpu_inference_se.Json.{end}
use ansuman_gpu_inference_se.Io.{ok}
use ansuman_gpu_inference_se.Session.{Sessions, Table}
use ansuman_gpu_inference_se.Batch.Job.{queued, running}
use ansuman_gpu_inference_se.Batch.Store.{JobTable, UsageDict}
use ansuman_gpu_inference_se.Batch.Postgres.{BatchJob, record_from_model}
use ansuman_gpu_inference_se.Batch.Contract.{expected, Call, moves, succeeds, fails}
use ansuman_gpu_inference_se.Batch.Contract.Memory.{memory_view, run_memory}
use ansuman_gpu_inference_se.Batch.Contract.Agreement.{run_all, memory_refines}

abbrev row : BatchJob
row = record {
  id = "job_1";
  user_id = "u";
  project_id = "p";
  api_key_id = "k";
  model = "llama";
  status = queued;
  error_code = none;
  error_message = none;
  request_count = pos 1;
  completed_count = pos 0;
  failed_count = pos 0;
  metadata_json = none;
  updated_at = 0;
}

-- The rows of a session, by id.
abbrev Rows : Type 0
Rows = List (String × BatchJob)

abbrev under : String → Option BatchJob → Option BatchJob
under j none = none
under j (some r) = some (record r { id = j })

abbrev sessions : Sessions Rows Rows
sessions = record { begin = λ w. w; commit = λ t w. (ok tt, t) }

abbrev batch_jobs : Table Rows BatchJob
batch_jobs = record { find = λ t j. under j (lookup j t); save = λ k r t. insert k r t }

abbrev job_table : JobTable
job_table =
    unfold record_from_model in
    record { jobs = ("job_1", record_from_model row) ∷ []; new_ids = [] }

abbrev usage : UsageDict
usage = record { prompt_tokens = pos 1; completion_tokens = pos 2; total_tokens = pos 3 }

abbrev calls : List Call
calls = moves "job_1" running ∷ succeeds "job_1" end usage ∷ fails "job_2" "late" (codes "x") ∷ []

memory_refines_example :
    let (answers, w') = run_all run_memory calls job_table in
    let (answers', jobs') = run_all expected calls (memory_view job_table) in
    (answers ≡ answers') × (memory_view w' ≡ jobs')
memory_refines_example = memory_refines calls job_table
