-- ===== src/Batch/Worker.antt =====
-- backend/services/batch/batch_worker.py: one turn of the worker.
pub mod Steps
pub mod Slots
pub mod Marks
pub mod Finish
pub mod Stored
pub mod Examples
use ansuman_gpu_inference_se.Prelude.{
  ℕ, ℤ, pos, String, Bool, true, false, ◌||◌, Option, none, some, if◌then◌else◌,
}
use ansuman_gpu_inference_se.Text.{Text, codes}
use ansuman_gpu_inference_se.Json.{Fields}
use ansuman_gpu_inference_se.Io.{
  Exc, Result, ok, raised, Io, pure, lift, within, code_or, str_exc, ◌>>=◌, ◌>>◌, try_except,
  finally,
}
use ansuman_gpu_inference_se.Auth.Keys.{AuthContext}
use ansuman_gpu_inference_se.Tokens.Estimate.{TokenEstimator}
use ansuman_gpu_inference_se.Tokens.Plan.{
  ChatCompletionRequest, TokenPlan, Limits, build_token_plan,
}
use ansuman_gpu_inference_se.Tokens.Usage.{UsageRecord, usage_from_response}
use ansuman_gpu_inference_se.Audit.Lifecycle.{RequestAudit, build_audit_start, build_audit_final}
use ansuman_gpu_inference_se.Analytics.Events.{UsageEvent}
use ansuman_gpu_inference_se.Inference.Services.{
  AdmissionController, normalize_chat_completion_payload, usage_event_of, emit_usage, tell,
}
use ansuman_gpu_inference_se.Batch.Job.{BatchJobRecord, running, is_cancelled}
use ansuman_gpu_inference_se.Batch.Store.{BatchJobStore, UsageDict}
use ansuman_gpu_inference_se.Batch.Queue.{BatchQueue}

-- `BatchWorker`. `model_validate` is pydantic's, for `chat_request_from_batch`; `capture` is the
-- Sentry report.
pub record Worker (W L : Type 0) : Type 0 where
  pub store : BatchJobStore W
  pub queue : BatchQueue W
  pub complete : Fields → Io W Fields
  pub admission : AdmissionController W L
  pub audit : RequestAudit W
  pub analytics_collector : Option (UsageEvent → Io W Bool)
  pub should_run_job : Option (Io W Bool)
  pub token_estimator : TokenEstimator
  pub limits : Limits
  pub model_validate : Fields → Result ChatCompletionRequest
  pub sha256_hex : Text → String
  pub capture : Exc → W → W
  pub elapsed_ms : W → ℤ
  pub utc_now : W → ℕ
  pub generate_request_id : W → String

-- The variables that the `except` and the `finally` read.
pub record Progress (L : Type 0) : Type 0 where
  pub admission_lease : Option L
  pub audit_record_id : Option String

abbrev pub on_world : {L W A : Type 0} → Io W A → Io (Progress L × W) A
on_world m (p, w) = within p (m w)

abbrev pub set_lease : {L W : Type 0} → L → Io (Progress L × W) (Unit {0})
set_lease lease (p, w) = (ok tt, (record p { admission_lease = some lease }, w))

abbrev pub set_record_id : {L W : Type 0} → String → Io (Progress L × W) (Unit {0})
set_record_id id (p, w) = (ok tt, (record p { audit_record_id = some id }, w))

abbrev pub context_of : BatchJobRecord → AuthContext
context_of job = record {
  api_key_id = job.api_key_id;
  user_id = job.user_id;
  project_id = job.project_id;
  allowed_models = none;
}

abbrev pub usage_dict : UsageRecord → UsageDict
usage_dict usage = record {
  prompt_tokens = usage.prompt_tokens;
  completion_tokens = usage.completion_tokens;
  total_tokens = usage.total_tokens;
}

abbrev pub failed_usage : UsageRecord
failed_usage = record {
  prompt_tokens = pos 0;
  completion_tokens = pos 0;
  total_tokens = pos 0;
  status = "failed";
}

module _ {W L : Type 0} (worker : Worker W L) where
  -- `_emit_usage_event`
  abbrev pub emit_to : Option (UsageEvent → Io W Bool) → UsageEvent → Io W (Unit {0})
  emit_to none event = pure tt
  emit_to (some collect) event = emit_usage collect event

  unfoldable pub emit : BatchJobRecord → String → String → UsageRecord → ℤ → Io W (Unit {0})
  emit job request_id model usage latency_ms w =
      emit_to worker.analytics_collector
        (usage_event_of (worker.utc_now w) (context_of job) request_id model usage (some latency_ms)
          none)
        w

  -- The calls behind the upstream's answer, with the latency read after the tokens are settled.
  unfoldable pub close_job :
      String
      → BatchJobRecord
      → String
      → ChatCompletionRequest
      → String
      → Fields
      → UsageRecord
      → Io W (Unit {0})
  unfolding emit
  close_job job_id job request_id request record_id response usage w =
      let latency_ms = worker.elapsed_ms w in
      (worker.audit.finalize (build_audit_final record_id usage (some latency_ms) none)
          >> (worker.store.mark_succeeded job_id response (usage_dict usage)
              >> emit job request_id request.model usage latency_ms))
        w

  -- The body of the `try` behind the admission.
  unfoldable pub run_admitted :
      String
      → BatchJobRecord
      → String
      → ChatCompletionRequest
      → TokenPlan
      → L
      → Io (Progress L × W) Bool
  unfolding close_job
  run_admitted job_id job request_id request plan lease =
      on_world (
        worker.audit.start (
          build_audit_start worker.sha256_hex request_id (context_of job) request.model
            request.messages))
      >>= λ record_id.
          set_record_id record_id
          >> (on_world (worker.complete (normalize_chat_completion_payload request)) >>= λ response.
              lift (usage_from_response response plan worker.token_estimator) >>= λ usage.
              on_world (worker.admission.finalize_tokens lease usage.total_tokens false)
              >> (on_world (close_job job_id job request_id request record_id response usage)
                  >> pure true))

  unfoldable pub planned : BatchJobRecord → Result (ChatCompletionRequest × TokenPlan)
  planned job = elim (worker.model_validate job.input_payload) [
    | raised e ↦ raised e
    | ok request ↦ elim (build_token_plan request worker.token_estimator worker.limits) [
      | raised e ↦ raised e
      | ok plan ↦ ok (request, plan)
    ]
  ]

  -- The body of the `try`.
  unfoldable pub run : String → BatchJobRecord → String → Io (Progress L × W) Bool
  unfolding run_admitted planned
  run job_id job request_id = lift (planned job) >>= λ (request, plan).
      on_world (worker.admission.admit (context_of job) plan.estimated_total_tokens) >>= λ lease.
      set_lease lease >> run_admitted job_id job request_id request plan lease

  abbrev pub refund : Option L → Io W (Unit {0})
  refund none = pure tt
  refund (some lease) = worker.admission.finalize_tokens lease (pos 0) true

  abbrev pub fail_audit : Option String → String → Io W (Unit {0})
  fail_audit none code w = (ok tt, w)
  fail_audit (some id) code w =
      worker.audit.finalize
        (build_audit_final id failed_usage (some (worker.elapsed_ms w)) (some code)) w

  -- The body of the `except Exception`.
  unfoldable pub fail : String → Exc → Io (Progress L × W) Bool
  fail job_id exc (p, w) =
      let code = code_or exc "batch_job_failed" in
      within p (
        (tell (worker.capture exc)
            >> (refund p.admission_lease
                >> (fail_audit p.audit_record_id code
                    >> (worker.store.mark_failed job_id code (codes (str_exc exc)) >> pure true))))
          w)

  abbrev pub release_lease : Option L → Io W (Unit {0})
  release_lease none = pure tt
  release_lease (some lease) = worker.admission.release lease

  -- The `finally`.
  unfoldable pub cleanup : Io (Progress L × W) (Unit {0})
  cleanup (p, w) = within p (release_lease p.admission_lease w)

  unfoldable pub attempt : String → BatchJobRecord → Io W Bool
  unfolding run fail cleanup
  attempt job_id job w =
      let body = try_except (run job_id job (worker.generate_request_id w)) (fail job_id) in
      let (r, (_, w')) =
        finally body cleanup (record { admission_lease = none; audit_record_id = none }, w) in
      (r, w')

  abbrev pub may_run : Option (Io W Bool) → Io W Bool
  may_run none = pure true
  may_run (some check) = check

  abbrev pub start_running : String → Option BatchJobRecord → Io W Bool
  start_running job_id none = pure false
  start_running job_id (some job) = attempt job_id job

  abbrev pub take_up : String → Option BatchJobRecord → Io W Bool
  take_up job_id none = pure false
  take_up job_id (some job) =
      if is_cancelled job.status
      then pure false
      else (may_run worker.should_run_job >>= λ runs.
          if runs
          then (worker.store.transition job_id running >>= start_running job_id)
          else (worker.queue.enqueue job_id >> pure false))

  abbrev pub process : Option String → Io W Bool
  process none = pure false
  process (some job_id) = worker.store.get job_id >>= take_up job_id

  unfoldable pub process_one : Io W Bool
  unfolding attempt
  process_one = worker.queue.dequeue >>= process
