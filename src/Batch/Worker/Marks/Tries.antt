-- ===== src/Batch/Worker/Marks/Tries.antt =====
-- The state of the job along the `try` and the `except` of `BatchWorker.process_one` of
-- backend/services/batch/batch_worker.py.
use ansuman_gpu_inference_se.Prelude.{pos, String, true, false, Option, none, some, refl, ℤ}
use ansuman_gpu_inference_se.Text.{codes}
use ansuman_gpu_inference_se.Json.{Fields}
use ansuman_gpu_inference_se.Io.{Exc, Result, ok, raised, Io, lift, code_or, str_exc, ◌>>◌}
use ansuman_gpu_inference_se.Io.Keeps.{Keeps, pure-Keeps}
use ansuman_gpu_inference_se.Io.Runs.{Runs, Anything, After, pure-Runs, bind-Runs, Keeps-Runs}
use ansuman_gpu_inference_se.Tokens.Plan.{ChatCompletionRequest, TokenPlan}
use ansuman_gpu_inference_se.Tokens.Usage.{UsageRecord, usage_from_response}
use ansuman_gpu_inference_se.Audit.Lifecycle.{build_audit_start, build_audit_final}
use ansuman_gpu_inference_se.Inference.Services.{
  normalize_chat_completion_payload, usage_event_of, tell-Keeps,
}
use ansuman_gpu_inference_se.Batch.Job.{BatchJobRecord, Status}
use ansuman_gpu_inference_se.Batch.Worker.{
  Worker, Progress, on_world, set_lease, set_record_id, context_of, usage_dict, failed_usage, emit,
  close_job, run_admitted, planned, run, refund, fail_audit, fail,
}
use ansuman_gpu_inference_se.Batch.Worker.Marks.{
  Live, Finished, Finished-Live, stays-Live, FinishLaws, on_world-Runs,
}

module _ {W L : Type 0} (worker : Worker W L) (job_id : String) (status : W → Option Status)
    (laws : FinishLaws worker job_id status) where
  abbrev pub LiveIn : W → Type 0
  LiveIn w = Live (status w)

  abbrev pub LiveBeside : Progress L × W → Type 0
  LiveBeside s = LiveIn s.1

  abbrev pub FinishedIn : {A : Type 0} → A → W → Type 0
  FinishedIn a w = Finished (status w)

  abbrev pub FinishedBeside : {A : Type 0} → A → Progress L × W → Type 0
  FinishedBeside a s = Finished (status s.1)

  lives : {A : Type 0} {m : Io W A} → Keeps status m → Runs LiveIn m (λ a. LiveIn) LiveIn
  lives k = Keeps-Runs status Live Live stays-Live k

  calls :
      {A : Type 0} {m : Io W A}
      → Keeps status m
      → Runs LiveBeside (on_world m) (λ a. LiveBeside) LiveBeside
  calls k = on_world-Runs (lives k)

  set_record_id-Runs :
      (id : String) → Runs LiveBeside (set_record_id id) (λ a. LiveBeside) LiveBeside
  set_record_id-Runs id = record { runs = λ s h. h }

  set_lease-Runs : (lease : L) → Runs LiveBeside (set_lease lease) (λ a. LiveBeside) LiveBeside
  set_lease-Runs lease = record { runs = λ s h. h }

  lift-After :
      {A : Type 0} (r : Result A) (s : Progress L × W)
      → LiveBeside s
      → After (λ a. LiveBeside) LiveBeside r s
  lift-After (ok a) s h = h
  lift-After (raised e) s h = h

  lift-Runs : {A : Type 0} (r : Result A) → Runs LiveBeside (lift r) (λ a. LiveBeside) LiveBeside
  lift-Runs r = record { runs = lift-After r }

  emit-Runs :
      (job : BatchJobRecord) (request_id model : String) (usage : UsageRecord) (latency_ms : ℤ)
      → Runs
          (λ w. Finished (status w))
          (emit worker job request_id model usage latency_ms)
          FinishedIn
          LiveIn
  unfolding emit
  emit-Runs job request_id model usage latency_ms = record {
    runs = λ w h.
        (Keeps-Runs status Finished Live Finished-Live (
            laws.emit_to-Keeps (
              usage_event_of (worker.utc_now w) (context_of job) request_id model usage
                (some latency_ms) none))).runs
          w h;
  }

  marked-Runs :
      (job : BatchJobRecord) (request_id model : String) (response : Fields) (usage : UsageRecord)
      (latency_ms : ℤ)
      → Runs LiveIn
          (worker.store.mark_succeeded job_id response (usage_dict usage)
            >> emit worker job request_id model usage latency_ms)
          FinishedIn
          LiveIn
  marked-Runs job request_id model response usage latency_ms =
      bind-Runs (laws.mark_succeeded-Runs response (usage_dict usage))
        (λ _. emit-Runs job request_id model usage latency_ms)

  close_job-Runs :
      (job : BatchJobRecord) (request_id : String) (request : ChatCompletionRequest)
      (record_id : String) (response : Fields) (usage : UsageRecord)
      → Runs LiveIn
          (close_job worker job_id job request_id request record_id response usage)
          FinishedIn
          LiveIn
  unfolding close_job emit
  close_job-Runs job request_id request record_id response usage = record {
    runs = λ w h.
        let latency_ms = worker.elapsed_ms w in
        let audited = build_audit_final record_id usage (some latency_ms) none in
        let steps : Runs LiveIn
            (worker.audit.finalize audited
              >> (worker.store.mark_succeeded job_id response (usage_dict usage)
                  >> emit worker job request_id request.model usage latency_ms))
            FinishedIn LiveIn =
          bind-Runs (lives (laws.finalize-Keeps audited))
            (λ _. marked-Runs job request_id request.model response usage latency_ms) in
        steps.runs w h;
  }

  run_admitted-Runs :
      (job : BatchJobRecord) (request_id : String) (request : ChatCompletionRequest)
      (plan : TokenPlan) (lease : L)
      → Runs LiveBeside
          (run_admitted worker job_id job request_id request plan lease)
          FinishedBeside
          LiveBeside
  unfolding run_admitted
  run_admitted-Runs job request_id request plan lease =
      bind-Runs
        (calls (
          laws.start-Keeps (
            build_audit_start worker.sha256_hex request_id (context_of job) request.model
              request.messages)))
        λ record_id. bind-Runs (set_record_id-Runs record_id) λ _.
          bind-Runs (calls (laws.complete-Keeps (normalize_chat_completion_payload request)))
            λ response.
              bind-Runs (lift-Runs (usage_from_response response plan worker.token_estimator))
                λ usage.
                  bind-Runs (calls (laws.finalize_tokens-Keeps lease usage.total_tokens false)) λ _.
                    bind-Runs
                      (on_world-Runs
                        (close_job-Runs job request_id request record_id response usage))
                      λ _. pure-Runs true (λ s h. h)

  pub run-Runs :
      (job : BatchJobRecord) (request_id : String)
      → Runs LiveBeside (run worker job_id job request_id) FinishedBeside LiveBeside
  unfolding run
  run-Runs job request_id = bind-Runs (lift-Runs (planned worker job)) λ (request, plan).
      bind-Runs (calls (laws.admit-Keeps (context_of job) plan.estimated_total_tokens)) λ lease.
        bind-Runs (set_lease-Runs lease) λ _. run_admitted-Runs job request_id request plan lease

  refund-Keeps : (lease : Option L) → Keeps status (refund worker lease)
  refund-Keeps none = pure-Keeps status tt
  refund-Keeps (some lease) = laws.finalize_tokens-Keeps lease (pos 0) true

  fail_audit-Keeps : (id : Option String) (code : String) → Keeps status (fail_audit worker id code)
  fail_audit-Keeps none code = record { keeps = λ w. refl }
  fail_audit-Keeps (some id) code = record {
    keeps = λ w.
        (laws.finalize-Keeps
            (build_audit_final id failed_usage (some (worker.elapsed_ms w)) (some code))).keeps
          w;
  }

  forgets : {A : Type 0} {m : Io W A} → Keeps status m → Runs LiveIn m (λ a. LiveIn) Anything
  forgets k = Keeps-Runs status Live (λ _. Unit {0}) (λ x h. tt) k

  pub fail-Runs : (exc : Exc) → Runs LiveBeside (fail worker job_id exc) FinishedBeside Anything
  unfolding fail
  fail-Runs exc = record {
    runs = λ (p, w) h.
        let code = code_or exc "batch_job_failed" in
        let steps =
          bind-Runs {Q' = FinishedIn}
            (forgets (tell-Keeps status (worker.capture exc) (laws.status-capture exc)))
            λ _. bind-Runs (forgets (refund-Keeps p.admission_lease)) λ _.
              bind-Runs (forgets (fail_audit-Keeps p.audit_record_id code)) λ _.
                bind-Runs (laws.mark_failed-Runs code (codes (str_exc exc)))
                  λ _. pure-Runs true (λ v f. f) in
        (on_world-Runs steps).runs (p, w) h;
  }
