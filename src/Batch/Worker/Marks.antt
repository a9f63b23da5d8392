-- ===== src/Batch/Worker/Marks.antt =====
-- The state of the job along the steps of `BatchWorker.process_one` of
-- backend/services/batch/batch_worker.py.
pub mod Tries
use ansuman_gpu_inference_se.Prelude.{
  pos, String, Bool, true, false, not, Option, none, some, ◌≡◌, refl, ℤ, arith,
}
use ansuman_gpu_inference_se.Text.{Text, codes}
use ansuman_gpu_inference_se.Json.{Fields}
use ansuman_gpu_inference_se.Io.{Exc, Result, ok, raised, Io, lift, code_or, str_exc, ◌>>◌}
use ansuman_gpu_inference_se.Io.Keeps.{Keeps, pure-Keeps}
use ansuman_gpu_inference_se.Io.Runs.{Runs, Anything, After, pure-Runs, bind-Runs, Keeps-Runs}
use ansuman_gpu_inference_se.Auth.Keys.{AuthContext}
use ansuman_gpu_inference_se.Tokens.Plan.{ChatCompletionRequest, TokenPlan}
use ansuman_gpu_inference_se.Tokens.Usage.{UsageRecord, usage_from_response}
use ansuman_gpu_inference_se.Audit.Lifecycle.{
  AuditStart, AuditFinal, build_audit_start, build_audit_final,
}
use ansuman_gpu_inference_se.Analytics.Events.{UsageEvent}
use ansuman_gpu_inference_se.Inference.Services.{
  normalize_chat_completion_payload, usage_event_of, tell-Keeps,
}
use ansuman_gpu_inference_se.Batch.Job.{
  BatchJobRecord, Status, queued, running, succeeded, failed, cancelled, is_cancelled,
}
use ansuman_gpu_inference_se.Batch.Store.{UsageDict}
use ansuman_gpu_inference_se.Batch.Worker.{
  Worker, Progress, on_world, set_lease, set_record_id, context_of, usage_dict, failed_usage,
  emit_to, emit, close_job, run_admitted, planned, run, refund, fail_audit, fail,
}

-- The job is there and not cancelled.
abbrev pub is_live : Option Status → Bool
is_live none = false
is_live (some s) = not (is_cancelled s)

-- The job has succeeded or failed.
abbrev pub is_finished : Option Status → Bool
is_finished (some succeeded) = true
is_finished (some failed) = true
is_finished _ = false

abbrev pub Live : Option Status → Type 0
Live s = is_live s ≡ true

abbrev pub Finished : Option Status → Type 0
Finished s = is_finished s ≡ true

pub Finished-Live : (s : Option Status) → Finished s → Live s
Finished-Live none h = ground (arith, h)
Finished-Live (some succeeded) h = refl
Finished-Live (some failed) h = refl
Finished-Live (some cancelled) h = h
Finished-Live (some queued) h = refl
Finished-Live (some running) h = refl

pub stays-Live : (s : Option Status) → Live s → Live s
stays-Live s h = h

-- A transition that answers with the job has moved it.
abbrev pub Moved : Option BatchJobRecord → Option Status → Type 0
Moved none s = Unit {0}
Moved (some job) s = s ≡ some running

-- The store marks the job as it is told, unless it raises, and nothing else touches its state.
pub record FinishLaws {W L : Type 0} (worker : Worker W L) (job_id : String)
    (status : W → Option Status) : Type 0 where
  pub transition-Runs :
      Runs Anything
        (worker.store.transition job_id running)
        (λ found w. Moved found (status w))
        Anything
  pub mark_succeeded-Runs :
      (r : Fields) (u : UsageDict)
      → Runs
          (λ w. Live (status w))
          (worker.store.mark_succeeded job_id r u)
          (λ found w. Finished (status w))
          (λ w. Live (status w))
  pub mark_failed-Runs :
      (c : String) (m : Text)
      → Runs
          (λ w. Live (status w))
          (worker.store.mark_failed job_id c m)
          (λ found w. Finished (status w))
          Anything
  pub admit-Keeps : (c : AuthContext) (n : ℤ) → Keeps status (worker.admission.admit c n)
  pub finalize_tokens-Keeps :
      (l : L) (n : ℤ) (b : Bool) → Keeps status (worker.admission.finalize_tokens l n b)
  pub release-Keeps : (l : L) → Keeps status (worker.admission.release l)
  pub start-Keeps : (a : AuditStart) → Keeps status (worker.audit.start a)
  pub finalize-Keeps : (f : AuditFinal) → Keeps status (worker.audit.finalize f)
  pub complete-Keeps : (p : Fields) → Keeps status (worker.complete p)
  pub emit_to-Keeps : (e : UsageEvent) → Keeps status (emit_to worker worker.analytics_collector e)
  pub status-capture : (e : Exc) (w : W) → status (worker.capture e w) ≡ status w

-- The same beside the variables of the turn.
module _ {W L : Type 0} where
  beside-After :
      {A : Type 0} (Q : A → W → Type 0) (R : W → Type 0) (r : Result A) (p : Progress L) (w : W)
      → After Q R r w
      → After (λ (a : A) (s : Progress L × W). Q a s.1) (λ (s : Progress L × W). R s.1) r (p, w)
  beside-After Q R (ok a) p w h = h
  beside-After Q R (raised e) p w h = h

  pub on_world-Runs :
      {A : Type 0} {m : Io W A} {P : W → Type 0} {Q : A → W → Type 0} {R : W → Type 0}
      → Runs P m Q R
      → Runs (λ (s : Progress L × W). P s.1) (on_world m) (λ a s. Q a s.1) (λ s. R s.1)
  on_world-Runs {A} {m} {P} {Q} {R} k = record {
    runs = λ (p, w) h. beside-After Q R (m w).0 p (m w).1 (k.runs w h);
  }
