-- ===== src/Batch/Postgres/Uncommitted.antt =====
-- What `PostgresBatchJobStore` of backend/services/batch/batch_service.py leaves in the database.
use ansuman_gpu_inference_se.Prelude.{ℕ, String, ◌≡◌, refl, none, some, List, true, false, arith}
use ansuman_gpu_inference_se.Text.{Text}
use ansuman_gpu_inference_se.Json.{Fields}
use ansuman_gpu_inference_se.Io.{ok}
use ansuman_gpu_inference_se.Session.{Sessions, Table, session_scope}
use ansuman_gpu_inference_se.Auth.Keys.{AuthContext}
use ansuman_gpu_inference_se.Batch.Job.{Status, can_transition}
use ansuman_gpu_inference_se.Batch.Store.{UsageDict}
use ansuman_gpu_inference_se.Batch.Postgres.{
  BatchJob, record_from_model, create, get_job, transition, mark_succeeded, mark_failed,
  list_recoverable, with_status, postgres_store,
}

module _ {W T : Type 0} (sessions : Sessions W T) (batch_jobs : Table T BatchJob)
    (list_by_status : T → Status → ℕ → List BatchJob) (uuid4 : T → String) (utc_now : ℕ)
    (isoformat : ℕ → Text) where
  -- No method of the store commits: whatever it answers, the database is as it was.
  pub store_unchanged :
      (context : AuthContext) (payload result : Fields) (model k code : String) (target : Status)
      (usage : UsageDict) (message : Text) (limit : ℕ) (w : W)
      → let store = postgres_store sessions batch_jobs list_by_status uuid4 utc_now isoformat in
        ((store.create context payload model w).1 ≡ w)
        × ((store.transition k target w).1 ≡ w)
        × ((store.mark_succeeded k result usage w).1 ≡ w)
        × ((store.mark_failed k code message w).1 ≡ w)
        × ((store.get k w).1 ≡ w)
        × ((store.list_recoverable limit w).1 ≡ w)
  unfolding create get_job transition mark_succeeded mark_failed list_recoverable session_scope
  store_unchanged context payload result model k code target usage message limit w =
      (refl, ground arith, ground arith, ground arith, refl, refl)

  -- A transition is answered with the moved job exactly when the table allows it from the committed
  -- state, and yet the committed job keeps its state.
  pub transition_answer :
      (k : String) (target : Status) (row : BatchJob) (w : W)
      → batch_jobs.find (sessions.begin w) k ≡ some row
      → let store = postgres_store sessions batch_jobs list_by_status uuid4 utc_now isoformat in
        let (r, w') = store.transition k target w in
        (can_transition row.status target ≡ true
          → r
            ≡ ok (
                some (
                  record_from_model (
                    with_status sessions batch_jobs list_by_status uuid4 utc_now isoformat target
                      row))))
        × (can_transition row.status target ≡ false → r ≡ ok none)
        × (batch_jobs.find (sessions.begin w') k ≡ some row)
  unfolding transition session_scope
  transition_answer k target row w e =
      (λ h. ground (arith, e, h), λ h. ground (arith, e, h), ground (arith, e))
