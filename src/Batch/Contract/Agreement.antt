-- ===== src/Batch/Contract/Agreement.antt =====
-- The job stores of backend/services/batch/batch_service.py against the contract, and against each other.
use ansuman_gpu_inference_se.Prelude.{ℕ, String, Option, List, [], ◌∷◌, ◌≡◌, refl, ap, ◌∙◌}
use ansuman_gpu_inference_se.Text.{Text}
use ansuman_gpu_inference_se.Session.{Sessions, Table}
use ansuman_gpu_inference_se.Batch.Job.{Status}
use ansuman_gpu_inference_se.Batch.Store.{JobTable}
use ansuman_gpu_inference_se.Batch.Postgres.{BatchJob}
use ansuman_gpu_inference_se.Batch.Contract.Memory.{memory_view, run_memory, memory-Refines}
use ansuman_gpu_inference_se.Batch.Contract.Rows.{session_view}
use ansuman_gpu_inference_se.Batch.Contract.{Summary, Call, Jobs, expected, Refines}

-- The answers to calls in a row, and the state behind them.
unfoldable pub run_all :
    {S : Type 0} → (Call → S → Option Summary × S) → List Call → S → List (Option Summary) × S
run_all run [] s = ([], s)
run_all run (call ∷ calls) s =
    let (answer, s') = run call s in
    let (answers, s'') = run_all run calls s' in (answer ∷ answers, s'')

module _ {S : Type 0} {run : Call → S → Option Summary × S} {view : S → Jobs}
    (refines : Refines run view) where
  -- A store that keeps the contract answers any calls in a row as the specification does.
  pub run_all-Refines :
      (calls : List Call) (s : S)
      → ((run_all run calls s).0 ≡ (run_all expected calls (view s)).0)
        × (view (run_all run calls s).1 ≡ (run_all expected calls (view s)).1)
  unfolding run_all
  run_all-Refines [] s = (refl, refl)
  run_all-Refines (call ∷ calls) s =
      let (answers, follows) = run_all-Refines calls (run call s).1 in
      let next = refines.follows call s in
      (
        (λ i.
            refines.answers call s i
            ∷ (answers ∙ ap (λ jobs. (run_all expected calls jobs).0) next) i),
        follows ∙ ap (λ jobs. (run_all expected calls jobs).1) next,
      )

-- The in-memory store answers any transitions, successes and failures of any jobs in a row as the
-- specification does, and ends with the jobs that the specification ends with.
pub memory_refines :
    (calls : List Call) (w : JobTable)
    → let (answers, w') = run_all run_memory calls w in
      let (answers', jobs') = run_all expected calls (memory_view w) in
      (answers ≡ answers') × (memory_view w' ≡ jobs')
memory_refines calls w = run_all-Refines memory-Refines calls w

module _ {W T : Type 0} (sessions : Sessions W T) (batch_jobs : Table T BatchJob)
    (list_by_status : T → Status → ℕ → List BatchJob) (uuid4 : T → String) (utc_now : ℕ)
    (isoformat : ℕ → Text) where
  abbrev committed : W → Jobs
  committed w =
      session_view sessions batch_jobs list_by_status uuid4 utc_now isoformat (sessions.begin w)
