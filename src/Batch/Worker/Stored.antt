-- ===== src/Batch/Worker/Stored.antt =====
-- What the worker relies on of a job store, for `InMemoryBatchJobStore` of
-- backend/services/batch/batch_service.py.
use mathlib.Core.Option
use ansuman_gpu_inference_se.Prelude.{
  String, Bool, false, Option, none, some, ◌≡◌, refl, ap, ◌∙◌, sym, subst, lookup, insert,
  lookup-insert, eq_refl, ◌=?◌, if◌then◌else◌, Bool-cases, inl, inr, arith,
}
use ansuman_gpu_inference_se.Text.{Text}
use ansuman_gpu_inference_se.Json.{Fields}
use ansuman_gpu_inference_se.Io.Runs.{Runs, Anything, After}
use ansuman_gpu_inference_se.Batch.Job.{
  BatchJobRecord, Status, queued, running, succeeded, failed, cancelled, is_cancelled,
}
use ansuman_gpu_inference_se.Batch.Store.{
  JobTable, UsageDict, transition, mark_succeeded, mark_failed, update_unless, refuses_transition,
  move_to, refuses_mark, with_success, with_failure,
}
use ansuman_gpu_inference_se.Batch.Worker.Marks.{Live, Finished, Moved}

-- The state of a job in the table.
abbrev pub status_of : String → JobTable → Option Status
status_of job_id w = Option.map (λ job. job.status) (lookup job_id w.jobs)

not_cancelled : (s : Status) → Live (some s) → is_cancelled s ≡ false
not_cancelled queued h = refl
not_cancelled running h = refl
not_cancelled succeeded h = refl
not_cancelled failed h = refl
not_cancelled cancelled h = ground (arith, h)

-- A write that is not refused is what is read back.
status-written :
    (job_id : String) (job : BatchJobRecord) (w : JobTable)
    → status_of job_id (record w { jobs = insert job_id job w.jobs }) ≡ some job.status
status-written job_id job w =
    let same : (if job_id =? job_id then some job else lookup job_id w.jobs) ≡ some job =
      rw (eq_refl job_id) refl in
    ap (Option.map (λ j. j.status)) (lookup-insert job_id job_id job w.jobs ∙ same)

module _ (refuse : BatchJobRecord → Bool) (change : BatchJobRecord → BatchJobRecord)
    (job_id : String) where
  update_unless-Moved :
      ((job : BatchJobRecord) → (change job).status ≡ running)
      → (found : Option BatchJobRecord) (w : JobTable)
      → let (r, w') = update_unless refuse change job_id found w in
        After (λ answer v. Moved answer (status_of job_id v)) Anything r w'
  update_unless-Moved runs none w = tt
  update_unless-Moved runs (some job) w = elim (Bool-cases (refuse job)) [
    | inl refused ↦ rw refused tt
    | inr passes ↦ rw passes (status-written job_id (change job) w ∙ ap some (runs job))
  ]

  update_unless-Finished :
      ((job : BatchJobRecord) → refuse job ≡ is_cancelled job.status)
      → ((job : BatchJobRecord) → Finished (some (change job).status))
      → (R : JobTable → Type 0) (found : Option BatchJobRecord) (w : JobTable)
      → lookup job_id w.jobs ≡ found
      → Live (Option.map (λ job. job.status) found)
      → let (r, w') = update_unless refuse change job_id found w in
        After (λ answer v. Finished (status_of job_id v)) R r w'
  update_unless-Finished refuses ends R none w e h = ground (arith, h)
  update_unless-Finished refuses ends R (some job) w e h =
      let stays : refuse job ≡ false = refuses job ∙ not_cancelled job.status h in
      rw stays (subst Finished (sym (status-written job_id (change job) w)) (ends job))

pub transition-Runs :
    (job_id : String)
    → Runs Anything
        (transition job_id running)
        (λ found w. Moved found (status_of job_id w))
        Anything
unfolding transition
transition-Runs job_id = record {
  runs = λ w h.
      update_unless-Moved (refuses_transition running) (move_to running) job_id (λ job. refl)
        (lookup job_id w.jobs) w;
}

pub mark_succeeded-Runs :
    (job_id : String) (result : Fields) (usage : UsageDict)
    → Runs
        (λ w. Live (status_of job_id w))
        (mark_succeeded job_id result usage)
        (λ found w. Finished (status_of job_id w))
        (λ w. Live (status_of job_id w))
unfolding mark_succeeded
mark_succeeded-Runs job_id result usage = record {
  runs = λ w h.
      update_unless-Finished refuses_mark (with_success result usage) job_id (λ job. refl)
        (λ job. refl) (λ v. Live (status_of job_id v)) (lookup job_id w.jobs) w refl h;
}

pub mark_failed-Runs :
    (job_id code : String) (message : Text)
    → Runs
        (λ w. Live (status_of job_id w))
        (mark_failed job_id code message)
        (λ found w. Finished (status_of job_id w))
        Anything
unfolding mark_failed
mark_failed-Runs job_id code message = record {
  runs = λ w h.
      update_unless-Finished refuses_mark (with_failure code message) job_id (λ job. refl)
        (λ job. refl) Anything (lookup job_id w.jobs) w refl h;
}
