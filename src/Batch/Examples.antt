-- ===== src/Batch/Examples.antt =====
-- Batch jobs in concrete stores and queues, and the theorems at those inputs.
use ansuman_gpu_inference_se.Prelude.{
  insert, ℕ, ◌+◌, pos, String, ◌≡◌, refl, true, false, none, some, List, [], ◌∷◌, length, lookup,
  ◌⊎◌, ◌=?◌, if◌then◌else◌,
}
use ansuman_gpu_inference_se.Json.{end, field, bool, get}
use ansuman_gpu_inference_se.Io.{app, ok, raised}
use ansuman_gpu_inference_se.Session.{Sessions, Table}
use ansuman_gpu_inference_se.Auth.Keys.{AuthContext}
use ansuman_gpu_inference_se.Batch.Job.{
  Status, queued, running, cancelled, is_terminal, can_transition, BatchJobRecord,
}
use ansuman_gpu_inference_se.Batch.Store.{JobTable, UsageDict, transition}
use ansuman_gpu_inference_se.Batch.Store.Cancelled.{
  Call, transition_to, fail, perform_all, cancelled_absorbs, transition_exact,
}
use ansuman_gpu_inference_se.Batch.Queue.{Pending, enqueue, dequeue}
use ansuman_gpu_inference_se.Batch.Queue.Order.{IsUnique, queue-IsUnique, dequeue-enqueue}
use ansuman_gpu_inference_se.Batch.Memory.{Memory, memory_store, memory_queue}
use ansuman_gpu_inference_se.Batch.Service.{
  BatchJobCreateRequest, batch_streaming_not_supported, is_true, submit, cancel,
}
use ansuman_gpu_inference_se.Batch.Service.Outcomes.{submit_stores, cancel_settles}
use ansuman_gpu_inference_se.Batch.Recovery.{reenqueue_missing}
use ansuman_gpu_inference_se.Batch.Recovery.Missing.{AllPending, reenqueue_missing_lem}
use ansuman_gpu_inference_se.Batch.Recovery.Backends.{
  memory_listed, memory_pending, memory-ScanLaws,
}
use ansuman_gpu_inference_se.Batch.Store.Onward.{transitions_never_return}
use ansuman_gpu_inference_se.Batch.Postgres.{
  BatchJob, record_from_model, postgres_store, with_status,
}
use ansuman_gpu_inference_se.Batch.Postgres.Uncommitted.{store_unchanged, transition_answer}

abbrev caller : AuthContext
caller = record { api_key_id = "k"; user_id = "u"; project_id = "p"; allowed_models = none }

abbrev job_in : Status → BatchJobRecord
job_in s = record {
  id = "job_1";
  user_id = "u";
  project_id = "p";
  api_key_id = "k";
  model = "llama";
  status = s;
  input_payload = end;
  result_payload = none;
  error_code = none;
  error_message = none;
  request_count = pos 1;
  completed_count = pos 0;
  failed_count = pos 0;
  metadata = end;
}

abbrev jobs_in : Status → JobTable
jobs_in s = record { jobs = ("job_1", job_in s) ∷ []; new_ids = "job_2" ∷ [] }

abbrev late_calls : List Call
late_calls = transition_to "job_1" running ∷ fail "job_1" "upstream_error" [] ∷ []

cancelled_absorbs_example :
    lookup "job_1" (perform_all late_calls (jobs_in cancelled)).jobs ≡ some (job_in cancelled)
unfolding lookup
cancelled_absorbs_example =
    cancelled_absorbs late_calls "job_1" (job_in cancelled) (jobs_in cancelled) refl refl

transition_exact_example :
    ((transition "job_1" running (jobs_in queued)).0 ≡ ok none)
      × ((transition "job_1" running (jobs_in queued)).1 ≡ jobs_in queued)
    ⊎ ((job : BatchJobRecord) × (lookup "job_1" (jobs_in queued).jobs ≡ some job)
        × (can_transition job.status running ≡ true)
        × ((transition "job_1" running (jobs_in queued)).0
            ≡ ok (some (record job { status = running })))
        × (lookup "job_1" (transition "job_1" running (jobs_in queued)).1.jobs
            ≡ some (record job { status = running }))
        × ((j : String)
            → ("job_1" =? j) ≡ false
            → lookup j (transition "job_1" running (jobs_in queued)).1.jobs
              ≡ lookup j (jobs_in queued).jobs))
transition_exact_example = transition_exact "job_1" running (jobs_in queued)

abbrev pending : Pending
pending = record { job_ids = "a" ∷ "b" ∷ []; fail_enqueue = false }

queue-IsUnique_example :
    IsUnique (enqueue "c" pending).1.job_ids × IsUnique (dequeue pending).1.job_ids
queue-IsUnique_example = queue-IsUnique "c" pending (refl, (refl, tt))

dequeue-enqueue_example :
    dequeue (enqueue "c" pending).1 ≡ (ok (some "a"), (enqueue "c" (dequeue pending).1).1)
dequeue-enqueue_example = dequeue-enqueue "c" "a" ("b" ∷ []) refl

abbrev nothing_pending : Memory
nothing_pending = (jobs_in queued, record { job_ids = []; fail_enqueue = false })

reenqueue_missing_lem_example :
    let (r, w') = reenqueue_missing memory_store memory_queue 100 nothing_pending in
    AllPending (memory_listed 100 nothing_pending) (memory_pending w')
    × ((n : ℕ) × (r ≡ ok n) × (length (memory_pending w') ≡ 0 + n))
    × (memory_listed 100 w' ≡ memory_listed 100 nothing_pending)
    × (reenqueue_missing memory_store memory_queue 100 w' ≡ (ok 0, w'))
reenqueue_missing_lem_example =
    reenqueue_missing_lem memory_store memory_queue 100 (memory-ScanLaws 100) nothing_pending refl

-- A refused transition, and one of another job.
transitions_never_return_example : job_in queued ≡ job_in queued
unfolding lookup transition can_transition insert
transitions_never_return_example =
    transitions_never_return (("job_1", queued) ∷ []) (("job_2", running) ∷ []) "job_1"
      (job_in queued) (job_in queued) (job_in queued) (jobs_in queued) refl refl refl refl

abbrev order : BatchJobCreateRequest
order = record { model = "llama"; payload = field "stream" (bool false) end }

abbrev broken_queue : Memory
broken_queue = (jobs_in queued, record { job_ids = []; fail_enqueue = true })

-- The queue fails, and the job is stored all the same.
submit_stores_example :
    let (r, w') = submit memory_store memory_queue caller order broken_queue in
    (is_true (get "stream" order.payload) ≡ true
      → (r ≡ raised (app batch_streaming_not_supported)) × (w' ≡ broken_queue))
    × (is_true (get "stream" order.payload) ≡ false
        → (job : BatchJobRecord) × (r ≡ ok job)
          × (lookup job.id w'.0.jobs ≡ some job)
          × (job.status ≡ queued)
          × (get "stream" job.input_payload ≡ some (bool false)))
submit_stores_example = submit_stores caller order broken_queue

cancel_settles_example :
    let (r, w') = cancel memory_store memory_queue "job_1" (jobs_in running, pending) in
    (job' : BatchJobRecord) × (r ≡ ok job')
    × (lookup "job_1" w'.0.jobs ≡ some job')
    × (is_terminal job'.status ≡ true)
    × (is_terminal (job_in running).status ≡ true → job' ≡ job_in running)
unfolding lookup
cancel_settles_example = cancel_settles "job_1" (job_in running) (jobs_in running, pending) refl

-- A database with one row, and a session that sees it and what it has saved.
abbrev row : BatchJob
row = record {
  id = "job_1";
  user_id = "u";
  project_id = "p";
  api_key_id = "k";
  model = "llama";
  status = queued;
  error_code = none;
  error_message = none;
  request_count = pos 1;
  completed_count = pos 0;
  failed_count = pos 0;
  metadata_json = none;
  updated_at = 0;
}

abbrev sessions : Sessions BatchJob BatchJob
sessions = record { begin = λ w. w; commit = λ t w. (ok tt, t) }

abbrev batch_jobs : Table BatchJob BatchJob
batch_jobs = record { find = λ t k. if t.id =? k then some t else none; save = λ k r t. r }

abbrev usage : UsageDict
usage = record { prompt_tokens = pos 3; completion_tokens = pos 4; total_tokens = pos 7 }

store_unchanged_example :
    let store = postgres_store sessions batch_jobs (λ t s n. t ∷ []) (λ t. "job_2") 5 (λ n. []) in
    ((store.create caller end "llama" row).1 ≡ row)
    × ((store.transition "job_1" running row).1 ≡ row)
    × ((store.mark_succeeded "job_1" end usage row).1 ≡ row)
    × ((store.mark_failed "job_1" "upstream_error" [] row).1 ≡ row)
    × ((store.get "job_1" row).1 ≡ row)
    × ((store.list_recoverable 100 row).1 ≡ row)
store_unchanged_example =
    store_unchanged sessions batch_jobs (λ t s n. t ∷ []) (λ t. "job_2") 5 (λ n. []) caller end end
      "llama" "job_1" "upstream_error" running usage [] 100 row

transition_answer_example :
    let store = postgres_store sessions batch_jobs (λ t s n. t ∷ []) (λ t. "job_2") 5 (λ n. []) in
    let (r, w') = store.transition "job_1" running row in
    (can_transition row.status running ≡ true
      → r
        ≡ ok (
            some (
              record_from_model (
                with_status sessions batch_jobs
                  (λ t s n. t ∷ [])
                  (λ t. "job_2")
                  5
                  (λ n. [])
                  running
                  row))))
    × (can_transition row.status running ≡ false → r ≡ ok none)
    × (batch_jobs.find (sessions.begin w') "job_1" ≡ some row)
transition_answer_example =
    transition_answer sessions batch_jobs (λ t s n. t ∷ []) (λ t. "job_2") 5 (λ n. []) "job_1"
      running row row refl
