-- ===== src/Batch/Worker/Examples.antt =====
-- Workers whose upstream fails, over the number of leases that are held and over a table of jobs.
use ansuman_gpu_inference_se.Prelude.{
  ℕ, suc, ◌-◌, pos, ◌≡◌, refl, true, false, String, Option, none, some, [], ◌∷◌, ◌+ℤ◌, insert,
}
use ansuman_gpu_inference_se.Json.{end}
use ansuman_gpu_inference_se.Io.{error, ok, Io, pure, raise}
use ansuman_gpu_inference_se.Io.Keeps.{Keeps}
use ansuman_gpu_inference_se.Inference.Services.{AdmissionController, AdmissionLaws}
use ansuman_gpu_inference_se.Tokens.Plan.{ChatCompletionRequest, build_token_plan}
use ansuman_gpu_inference_se.Tokens.Estimate.{estimate_prompt_tokens}
use ansuman_gpu_inference_se.Batch.Job.{BatchJobRecord, queued, can_transition}
use ansuman_gpu_inference_se.Batch.Worker.{Worker, process_one}
use ansuman_gpu_inference_se.Batch.Worker.Steps.{WorkerLaws}
use ansuman_gpu_inference_se.Batch.Store.{JobTable, get, transition, mark_failed, in_memory}
use ansuman_gpu_inference_se.Batch.Worker.Marks.{FinishLaws, is_finished}
use ansuman_gpu_inference_se.Batch.Worker.Finish.{process_one_finishes}
use ansuman_gpu_inference_se.Batch.Worker.Stored.{
  status_of, transition-Runs, mark_succeeded-Runs, mark_failed-Runs,
}
use ansuman_gpu_inference_se.Batch.Worker.Slots.{process_one_settles}

abbrev job : BatchJobRecord
job = record {
  id = "job_1";
  user_id = "u";
  project_id = "p";
  api_key_id = "k";
  model = "llama";
  status = queued;
  input_payload = end;
  result_payload = none;
  error_code = none;
  error_message = none;
  request_count = pos 1;
  completed_count = pos 0;
  failed_count = pos 0;
  metadata = end;
}

abbrev request : ChatCompletionRequest
request = record {
  model = "llama";
  messages = [];
  stream = false;
  max_tokens = some (pos 10);
  others = end;
}

-- Over any world, with these admissions and this head of the queue.
abbrev pub worker_over :
    {W : Type 0} → AdmissionController W (Unit {0}) → Io W (Option String) → Worker W (Unit {0})
worker_over admission dequeue = record {
  store = record {
    create = λ c p m. pure job;
    get = λ k. pure (some job);
    transition = λ k s. pure (some (record job { status = s }));
    mark_succeeded = λ k r u. pure (some job);
    mark_failed = λ k c m. pure (some job);
    list_recoverable = λ n. pure [];
  };
  queue = record { enqueue = λ k. pure tt; dequeue = dequeue; is_in = λ k. pure true };
  complete = λ p. raise (error "connection reset");
  admission = admission;
  audit = record { start = λ a. pure "audit_1"; finalize = λ f. pure tt };
  analytics_collector = none;
  should_run_job = none;
  token_estimator = λ t. pos 1;
  limits = record {
    max_input_tokens = pos 100;
    max_output_tokens = pos 100;
    max_total_tokens = pos 150;
  };
  model_validate = λ fs. ok request;
  sha256_hex = λ t. "hash";
  capture = λ e w. w;
  elapsed_ms = λ w. pos 12;
  utc_now = λ w. 0;
  generate_request_id = λ w. "req_1";
}

pub worker_over-Laws :
    {W : Type 0} (held : W → ℕ) (admission : AdmissionController W (Unit {0}))
    (dequeue : Io W (Option String))
    → AdmissionLaws admission held
    → Keeps held dequeue
    → WorkerLaws (worker_over admission dequeue) held
worker_over-Laws held admission dequeue laws keeps = record {
  admission = laws;
  start-Keeps = λ a. record { keeps = λ w. refl };
  finalize-Keeps = λ f. record { keeps = λ w. refl };
  complete-Keeps = λ p. record { keeps = λ w. refl };
  emit_to-Keeps = λ e. record { keeps = λ w. refl };
  may_run-Keeps = record { keeps = λ w. refl };
  get-Keeps = λ k. record { keeps = λ w. refl };
  transition-Keeps = λ k s. record { keeps = λ w. refl };
  mark_succeeded-Keeps = λ k r u. record { keeps = λ w. refl };
  mark_failed-Keeps = λ k c m. record { keeps = λ w. refl };
  enqueue-Keeps = λ k. record { keeps = λ w. refl };
  dequeue-Keeps = keeps;
  held-capture = λ e w. refl;
}

abbrev counting : AdmissionController ℕ (Unit {0})
counting = record {
  admit = λ c n w. (ok tt, suc w);
  finalize_tokens = λ l n b. pure tt;
  release = λ l w. (ok tt, w - 1);
}

abbrev worker : Worker ℕ (Unit {0})
worker = worker_over counting (pure (some "job_1"))

abbrev itself : ℕ → ℕ
itself n = n

worker_laws : WorkerLaws worker itself
worker_laws =
    worker_over-Laws itself counting (pure (some "job_1"))
      (record {
        held-admit = λ c n w. refl;
        held-release = λ l w. refl;
        finalize_tokens-Keeps = λ l n b. record { keeps = λ w. refl };
      })
      (record { keeps = λ w. refl })

process_one_settles_example : (process_one worker 2).1 ≡ 2
process_one_settles_example = process_one_settles worker worker_laws 2

-- A worker over the in-memory store, with one job in it, and an upstream that fails.
abbrev over_table : Worker JobTable (Unit {0})
over_table =
    record (worker_over
      (record {
        admit = λ c n. pure tt;
        finalize_tokens = λ l n b. pure tt;
        release = λ l. pure tt;
      })
      (pure (some "job_1"))) { store = in_memory }

over_table-Laws : FinishLaws over_table "job_1" (status_of "job_1")
over_table-Laws = record {
  transition-Runs = transition-Runs "job_1";
  mark_succeeded-Runs = mark_succeeded-Runs "job_1";
  mark_failed-Runs = mark_failed-Runs "job_1";
  admit-Keeps = λ c n. record { keeps = λ w. refl };
  finalize_tokens-Keeps = λ l n b. record { keeps = λ w. refl };
  release-Keeps = λ l. record { keeps = λ w. refl };
  start-Keeps = λ a. record { keeps = λ w. refl };
  finalize-Keeps = λ f. record { keeps = λ w. refl };
  complete-Keeps = λ p. record { keeps = λ w. refl };
  emit_to-Keeps = λ e. record { keeps = λ w. refl };
  status-capture = λ e w. refl;
}

abbrev one_job : JobTable
one_job = record { jobs = ("job_1", job) ∷ []; new_ids = [] }

process_one_finishes_example :
    is_finished (status_of "job_1" (process_one over_table one_job).1) ≡ true
unfolding process_one get transition can_transition build_token_plan estimate_prompt_tokens ◌+ℤ◌
    mark_failed insert
process_one_finishes_example =
    process_one_finishes over_table "job_1" (status_of "job_1") over_table-Laws one_job refl refl
