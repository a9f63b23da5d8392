-- ===== src/Batch/Worker/Steps.antt =====
-- The steps of `BatchWorker.process_one` of backend/services/batch/batch_worker.py under a lease.
use ansuman_gpu_inference_se.Prelude.{
  ℕ, suc, ℤ, pos, String, true, false, Option, none, some, ◌≡◌, refl, ap,
}
use ansuman_gpu_inference_se.Text.{Text, codes}
use ansuman_gpu_inference_se.Json.{Fields}
use ansuman_gpu_inference_se.Io.{Exc, Io, code_or, str_exc}
use ansuman_gpu_inference_se.Io.Keeps.{Keeps, pure-Keeps, lift-Keeps, bind-Keeps, then-Keeps}
use ansuman_gpu_inference_se.Tokens.Plan.{ChatCompletionRequest, TokenPlan}
use ansuman_gpu_inference_se.Tokens.Usage.{UsageRecord, usage_from_response}
use ansuman_gpu_inference_se.Audit.Lifecycle.{
  AuditStart, AuditFinal, build_audit_start, build_audit_final,
}
use ansuman_gpu_inference_se.Analytics.Events.{UsageEvent}
use ansuman_gpu_inference_se.Inference.Services.{
  AdmissionLaws, normalize_chat_completion_payload, usage_event_of, tell-Keeps,
}
use ansuman_gpu_inference_se.Batch.Job.{BatchJobRecord, Status}
use ansuman_gpu_inference_se.Batch.Store.{UsageDict}
use ansuman_gpu_inference_se.Batch.Worker.{
  Worker, Progress, on_world, set_record_id, context_of, usage_dict, failed_usage, emit_to, emit,
  close_job, run_admitted, refund, fail_audit, fail, may_run,
}

-- Only the admission service touches the count of leases that are held.
pub record WorkerLaws {W L : Type 0} (worker : Worker W L) (held : W → ℕ) : Type 0 where
  pub admission : AdmissionLaws worker.admission held
  pub start-Keeps : (a : AuditStart) → Keeps held (worker.audit.start a)
  pub finalize-Keeps : (f : AuditFinal) → Keeps held (worker.audit.finalize f)
  pub complete-Keeps : (p : Fields) → Keeps held (worker.complete p)
  pub emit_to-Keeps : (e : UsageEvent) → Keeps held (emit_to worker worker.analytics_collector e)
  pub may_run-Keeps : Keeps held (may_run worker worker.should_run_job)
  pub get-Keeps : (k : String) → Keeps held (worker.store.get k)
  pub transition-Keeps : (k : String) (s : Status) → Keeps held (worker.store.transition k s)
  pub mark_succeeded-Keeps :
      (k : String) (r : Fields) (u : UsageDict) → Keeps held (worker.store.mark_succeeded k r u)
  pub mark_failed-Keeps : (k c : String) (m : Text) → Keeps held (worker.store.mark_failed k c m)
  pub enqueue-Keeps : (k : String) → Keeps held (worker.queue.enqueue k)
  pub dequeue-Keeps : Keeps held worker.queue.dequeue
  pub held-capture : (e : Exc) (w : W) → held (worker.capture e w) ≡ held w

module _ {W L : Type 0} (worker : Worker W L) {held : W → ℕ} (laws : WorkerLaws worker held) where
  -- The leases that are held beside the one that the turn may have, and one more.
  abbrev pub others : Progress L × W → ℕ
  others (p, w) = elim (p.admission_lease) [ none ↦ suc (held w) | some l ↦ held w ]

  others_at :
      (lease : Option L) (id : Option String) (v w : W)
      → held v ≡ held w
      → others (record { admission_lease = lease; audit_record_id = id }, v)
        ≡ others (record { admission_lease = lease; audit_record_id = id }, w)
  others_at none id v w h = ap suc h
  others_at (some l) id v w h = h

  on_world-Keeps : {A : Type 0} {m : Io W A} → Keeps held m → Keeps others (on_world m)
  on_world-Keeps {m} h = record {
    keeps = λ (p, w). others_at p.admission_lease p.audit_record_id (m w).1 w (h.keeps w);
  }

  set_record_id-Keeps : (id : String) → Keeps others (set_record_id id)
  set_record_id-Keeps id = record { keeps = λ (p, w). refl }

  emit-Keeps :
      (job : BatchJobRecord) (request_id model : String) (usage : UsageRecord) (latency_ms : ℤ)
      → Keeps held (emit worker job request_id model usage latency_ms)
  unfolding emit
  emit-Keeps job request_id model usage latency_ms = record {
    keeps = λ w.
        (laws.emit_to-Keeps (
            usage_event_of (worker.utc_now w) (context_of job) request_id model usage
              (some latency_ms) none)).keeps
          w;
  }

  close_job-Keeps :
      (job_id : String) (job : BatchJobRecord) (request_id : String)
      (request : ChatCompletionRequest) (record_id : String) (response : Fields)
      (usage : UsageRecord)
      → Keeps held (close_job worker job_id job request_id request record_id response usage)
  unfolding close_job
  close_job-Keeps job_id job request_id request record_id response usage = record {
    keeps = λ w.
        let latency_ms = worker.elapsed_ms w in
        (then-Keeps held
            (laws.finalize-Keeps (build_audit_final record_id usage (some latency_ms) none))
            (then-Keeps held (laws.mark_succeeded-Keeps job_id response (usage_dict usage))
              (emit-Keeps job request_id request.model usage latency_ms))).keeps
          w;
  }

  pub run_admitted-Keeps :
      (job_id : String) (job : BatchJobRecord) (request_id : String)
      (request : ChatCompletionRequest) (plan : TokenPlan) (lease : L)
      → Keeps others (run_admitted worker job_id job request_id request plan lease)
  unfolding run_admitted
  run_admitted-Keeps job_id job request_id request plan lease =
      bind-Keeps others
        (on_world-Keeps (
          laws.start-Keeps (
            build_audit_start worker.sha256_hex request_id (context_of job) request.model
              request.messages)))
        λ record_id. then-Keeps others (set_record_id-Keeps record_id) (
          bind-Keeps others
            (on_world-Keeps (laws.complete-Keeps (normalize_chat_completion_payload request)))
            λ response.
              bind-Keeps others
                (lift-Keeps others (usage_from_response response plan worker.token_estimator))
                λ usage.
                  then-Keeps others
                    (on_world-Keeps
                      (laws.admission.finalize_tokens-Keeps lease usage.total_tokens false))
                    (then-Keeps others
                      (on_world-Keeps
                        (close_job-Keeps job_id job request_id request record_id response usage))
                      (pure-Keeps others true)))

  refund-Keeps : (lease : Option L) → Keeps held (refund worker lease)
  refund-Keeps none = pure-Keeps held tt
  refund-Keeps (some lease) = laws.admission.finalize_tokens-Keeps lease (pos 0) true

  fail_audit-Keeps : (id : Option String) (code : String) → Keeps held (fail_audit worker id code)
  fail_audit-Keeps none code = record { keeps = λ w. refl }
  fail_audit-Keeps (some id) code = record {
    keeps = λ w.
        (laws.finalize-Keeps
            (build_audit_final id failed_usage (some (worker.elapsed_ms w)) (some code))).keeps
          w;
  }

  pub fail-Keeps : (job_id : String) (exc : Exc) → Keeps others (fail worker job_id exc)
  unfolding fail
  fail-Keeps job_id exc = record {
    keeps = λ (p, w).
        let code = code_or exc "batch_job_failed" in
        let steps = then-Keeps held (tell-Keeps held (worker.capture exc) (laws.held-capture exc)) (
          then-Keeps held (refund-Keeps p.admission_lease) (
            then-Keeps held (fail_audit-Keeps p.audit_record_id code) (
              then-Keeps held (laws.mark_failed-Keeps job_id code (codes (str_exc exc)))
                (pure-Keeps held true)))) in
        (on_world-Keeps steps).keeps (p, w);
  }
