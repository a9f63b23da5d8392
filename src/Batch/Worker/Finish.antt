-- ===== src/Batch/Worker/Finish.antt =====
-- The state in which `BatchWorker.process_one` of backend/services/batch/batch_worker.py leaves a job.
use ansuman_gpu_inference_se.Prelude.{
  String, Bool, true, false, Option, none, some, ◌≡◌, refl, sym, subst, arith, if◌then◌else◌,
}
use ansuman_gpu_inference_se.Io.{Result, ok, raised, pure, finally, ◌>>=◌, ◌>>◌, try_except}
use ansuman_gpu_inference_se.Io.Keeps.{Keeps, bind_ok, pure-Keeps}
use ansuman_gpu_inference_se.Io.Runs.{
  Runs, Anything, After, any-Runs, pure-Runs, bind-Runs, try_except-Runs, finally-Runs,
}
use ansuman_gpu_inference_se.Batch.Job.{BatchJobRecord, Status, running, is_cancelled}
use ansuman_gpu_inference_se.Batch.Worker.{
  Worker, Progress, run, fail, release_lease, cleanup, attempt, may_run, start_running, take_up,
  process, process_one,
}
use ansuman_gpu_inference_se.Batch.Worker.Marks.{Live, Finished, is_finished, Moved, FinishLaws}
use ansuman_gpu_inference_se.Batch.Worker.Marks.Tries.{
  LiveIn, FinishedIn, FinishedBeside, run-Runs, fail-Runs,
}

module _ {W L : Type 0} (worker : Worker W L) (job_id : String) (status : W → Option Status)
    (laws : FinishLaws worker job_id status) where
  release_lease-Keeps : (lease : Option L) → Keeps status (release_lease worker lease)
  release_lease-Keeps none = pure-Keeps status tt
  release_lease-Keeps (some lease) = laws.release-Keeps lease

  world-After :
      (r : Result Bool) (s : Progress L × W)
      → After (FinishedBeside worker job_id status laws) Anything r s
      → After (FinishedIn worker job_id status laws) Anything r s.1
  world-After (ok a) s h = h
  world-After (raised e) s h = tt

  attempt-Runs :
      (job : BatchJobRecord)
      → Runs
          (LiveIn worker job_id status laws)
          (attempt worker job_id job)
          (FinishedIn worker job_id status laws)
          Anything
  unfolding attempt cleanup
  attempt-Runs job = record {
    runs = λ w h.
        let body =
          finally-Runs (cleanup worker)
            (try_except-Runs (run-Runs worker job_id status laws job (worker.generate_request_id w))
              (fail-Runs worker job_id status laws) (λ s q. tt))
            (λ a (p, v) f.
              subst Finished (sym ((release_lease-Keeps p.admission_lease).keeps v)) f) in
        let job_run = run worker job_id job (worker.generate_request_id w) in
        let whole = finally (try_except job_run (fail worker job_id)) (cleanup worker) in
        let fresh : Progress L = record { admission_lease = none; audit_record_id = none } in
        world-After (whole (fresh, w)).0 (whole (fresh, w)).1 (body.runs (fresh, w) h);
  }

  -- An answer of `True` says that the job is finished.
  abbrev Settled : Bool → W → Type 0
  Settled done w = done ≡ true → Finished (status w)

  Settled-After :
      (r : Result Bool) (w : W)
      → After (FinishedIn worker job_id status laws) Anything r w
      → After Settled Anything r w
  Settled-After (ok a) w h = λ e. h
  Settled-After (raised e) w h = tt

  start_running-Runs :
      (found : Option BatchJobRecord)
      → Runs (λ w. Moved found (status w)) (start_running worker job_id found) Settled Anything
  start_running-Runs none = pure-Runs false (λ w h e. ground (arith, e))
  start_running-Runs (some job) = record {
    runs = λ w h.
        Settled-After (attempt worker job_id job w).0 (attempt worker job_id job w).1
          ((attempt-Runs job).runs w (subst Live (sym h) refl));
  }

  take_up-Runs :
      (found : Option BatchJobRecord) → Runs Anything (take_up worker job_id found) Settled Anything
  take_up-Runs none = pure-Runs false (λ w h e. ground (arith, e))
  take_up-Runs (some job) = choose (is_cancelled job.status)
    where
      allowed :
          (runs : Bool)
          → Runs Anything
              (if runs
                then (worker.store.transition job_id running >>= start_running worker job_id)
                else (worker.queue.enqueue job_id >> pure false))
              Settled
              Anything
      allowed true = bind-Runs laws.transition-Runs start_running-Runs
      allowed false =
          bind-Runs (any-Runs Anything (worker.queue.enqueue job_id))
            λ _. pure-Runs false (λ w h e. ground (arith, e))

      choose :
          (b : Bool)
          → Runs Anything
              (if b
                then pure false
                else (may_run worker worker.should_run_job >>= λ runs.
                    if runs
                    then (worker.store.transition job_id running >>= start_running worker job_id)
                    else (worker.queue.enqueue job_id >> pure false)))
              Settled
              Anything
      choose true = pure-Runs false (λ w h e. ground (arith, e))
      choose false = bind-Runs (any-Runs Anything (may_run worker worker.should_run_job)) allowed

  -- A turn of the worker that took a job from the queue and answers `True` leaves the job succeeded or
  -- failed: it is not left running.
  pub process_one_finishes :
      (w : W)
      → (worker.queue.dequeue w).0 ≡ ok (some job_id)
      → (process_one worker w).0 ≡ ok true
      → is_finished (status (process_one worker w).1) ≡ true
  unfolding process_one
  process_one_finishes w taken done =
      let turn = bind_ok worker.queue.dequeue (process worker) w taken in
      let from = (worker.queue.dequeue w).1 in
      let steps : Runs Anything (process worker (some job_id)) Settled Anything =
        bind-Runs (any-Runs Anything (worker.store.get job_id)) take_up-Runs in
      let ends : After Settled Anything (process_one worker w).0 (process_one worker w).1 =
        subst (λ t. After Settled Anything t.0 t.1) (sym turn) (steps.runs from tt) in
      subst (λ r. After Settled Anything r (process_one worker w).1) done ends refl
