-- ===== src/Batch/Worker/Slots.antt =====
-- Leases under `BatchWorker.process_one` of backend/services/batch/batch_worker.py.
use ansuman_gpu_inference_se.Prelude.{
  ℕ, suc, ◌-◌, String, Bool, true, false, Option, none, some, ◌≡◌, refl, ap, ◌∙◌, arith, inl, inr,
  if◌then◌else◌,
}
use ansuman_gpu_inference_se.Io.{
  Result, ok, raised, Io, pure, lift, ◌>>=◌, ◌>>◌, try_except, Result-cases,
}
use ansuman_gpu_inference_se.Io.Keeps.{
  bind_ok, bind_raised, Keeps, pure-Keeps, bind-Keeps, then-Keeps, measure-try_except,
  measure-finally,
}
use ansuman_gpu_inference_se.Tokens.Plan.{ChatCompletionRequest, TokenPlan}
use ansuman_gpu_inference_se.Batch.Job.{BatchJobRecord, running, is_cancelled}
use ansuman_gpu_inference_se.Batch.Worker.{
  Worker, Progress, on_world, set_lease, context_of, run_admitted, planned, run, fail,
  release_lease, cleanup, attempt, may_run, start_running, take_up, process, process_one,
}
use ansuman_gpu_inference_se.Batch.Worker.Steps.{WorkerLaws, run_admitted-Keeps, fail-Keeps, others}

module _ {W L : Type 0} (worker : Worker W L) {held : W → ℕ} (laws : WorkerLaws worker held) where
  abbrev fresh : Progress L
  fresh = record { admission_lease = none; audit_record_id = none }

  -- Up to the end of the `try`, the turn has the lease that it took, and no other.
  others-run_from :
      (job_id : String) (job : BatchJobRecord) (request_id : String) (w : W)
      → (r : Result (ChatCompletionRequest × TokenPlan))
      → others worker laws
          ((lift r >>= λ (request, plan).
              on_world (worker.admission.admit (context_of job) plan.estimated_total_tokens)
              >>= λ lease.
                  set_lease lease >> run_admitted worker job_id job request_id request plan lease)
            (fresh, w)).1
        ≡ suc (held w)
  others-run_from job_id job request_id w (raised e) = refl
  others-run_from job_id job request_id w (ok (request, plan)) =
      let n = plan.estimated_total_tokens in
      let admit = worker.admission.admit (context_of job) n in
      let V = Progress L × W in
      let next : L → Io V Bool =
        λ lease. set_lease lease >> run_admitted worker job_id job request_id request plan lease in
      let admitted = laws.admission.held-admit (context_of job) n w in
      elim (Result-cases (admit w).0) [
        | inr (e, refused) ↦
            ap (λ (x : Result Bool × V). others worker laws x.1)
              (bind_raised (on_world admit) next (fresh, w) refused)
            ∙ ground (arith, admitted, refused)
        | inl (lease, got) ↦
            ap (λ (x : Result Bool × V). others worker laws x.1)
              (bind_ok (on_world admit) next (fresh, w) got)
            ∙ (run_admitted-Keeps worker laws job_id job request_id request plan lease).keeps
                (record fresh { admission_lease = some lease }, (admit w).1)
            ∙ ground (arith, admitted, got)
      ]

  held-cleanup :
      (p : Progress L) (w : W) → held (cleanup worker (p, w)).1.1 ≡ others worker laws (p, w) - 1
  unfolding cleanup
  held-cleanup p w = release_at p.admission_lease
    where
      release_at :
          (lease : Option L)
          → held (release_lease worker lease w).1
            ≡ (elim lease [ none ↦ suc (held w) | some l ↦ held w ]) - 1
      release_at none = ground arith
      release_at (some l) = laws.admission.held-release l w

  held-attempt :
      (job_id : String) (job : BatchJobRecord) (w : W)
      → held (attempt worker job_id job w).1 ≡ held w
  unfolding attempt run
  held-attempt job_id job w =
      let request_id = worker.generate_request_id w in
      let whole = try_except (run worker job_id job request_id) (fail worker job_id) in
      let left = (whole (fresh, w)).1 in
      let tried =
        measure-try_except (others worker laws) (run worker job_id job request_id)
          (fail worker job_id) (fresh, w) (suc (held w)) (fail-Keeps worker laws job_id)
          (others-run_from job_id job request_id w (planned worker job)) in
      measure-finally (λ (p, v). held v) whole (cleanup worker) (fresh, w)
      ∙ held-cleanup left.0 left.1
      ∙ ap (λ n. n - 1) tried
      ∙ ground arith

  attempt-Keeps : (job_id : String) (job : BatchJobRecord) → Keeps held (attempt worker job_id job)
  attempt-Keeps job_id job = record { keeps = held-attempt job_id job }

  start_running-Keeps :
      (job_id : String) (job : Option BatchJobRecord) → Keeps held (start_running worker job_id job)
  start_running-Keeps job_id none = pure-Keeps held false
  start_running-Keeps job_id (some job) = attempt-Keeps job_id job

  when_allowed-Keeps :
      (job_id : String) (runs : Bool)
      → Keeps held (
          if runs
          then (worker.store.transition job_id running >>= start_running worker job_id)
          else (worker.queue.enqueue job_id >> pure false))
  when_allowed-Keeps job_id true =
      bind-Keeps held (laws.transition-Keeps job_id running) (start_running-Keeps job_id)
  when_allowed-Keeps job_id false =
      then-Keeps held (laws.enqueue-Keeps job_id) (pure-Keeps held false)

  take_up-Keeps :
      (job_id : String) (job : Option BatchJobRecord) → Keeps held (take_up worker job_id job)
  take_up-Keeps job_id none = pure-Keeps held false
  take_up-Keeps job_id (some job) = choose (is_cancelled job.status)
    where
      choose :
          (b : Bool)
          → Keeps held (
              if b
              then pure false
              else (may_run worker worker.should_run_job >>= λ runs.
                  if runs
                  then (worker.store.transition job_id running >>= start_running worker job_id)
                  else (worker.queue.enqueue job_id >> pure false)))
      choose true = pure-Keeps held false
      choose false = bind-Keeps held laws.may_run-Keeps (when_allowed-Keeps job_id)

  process-Keeps : (job_id : Option String) → Keeps held (process worker job_id)
  process-Keeps none = pure-Keeps held false
  process-Keeps (some job_id) = bind-Keeps held (laws.get-Keeps job_id) (take_up-Keeps job_id)

  -- A turn of the worker leaves no lease behind, however it ends: with no job to run, with a job that
  -- succeeds or fails at any step, or cancelled.
  pub process_one_settles : (w : W) → held (process_one worker w).1 ≡ held w
  unfolding process_one
  process_one_settles w = (bind-Keeps held laws.dequeue-Keeps process-Keeps).keeps w
