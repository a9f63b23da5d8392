-- ===== src/Batch/Contract/Rows.antt =====
-- What a method of `PostgresBatchJobStore` answers, against the contract on the rows that are committed.
use ansuman_gpu_inference_se.Prelude.{
  ℕ, String, Bool, true, false, Option, none, some, List, ◌≡◌, refl, ap, ◌∙◌, if◌then◌else◌,
}
use ansuman_gpu_inference_se.Text.{Text}
use ansuman_gpu_inference_se.Json.{Json, Fields, get, put, obj, str}
use ansuman_gpu_inference_se.Json.Dict.{get-put}
use ansuman_gpu_inference_se.Io.{Result, ok, Io, pure, ◌>>=◌}
use ansuman_gpu_inference_se.Io.Keeps.{bind_ok}
use ansuman_gpu_inference_se.Session.{
  Sessions, Table, Exit, returned, session_scope, session_scope_returned,
}
use ansuman_gpu_inference_se.Batch.Job.{BatchJobRecord, Status}
use ansuman_gpu_inference_se.Batch.Store.{usage_fields}
use ansuman_gpu_inference_se.Batch.Postgres.{
  BatchJob, record_from_model, metadata_of, as_dict, with_status, row_succeeded, row_failed, saved,
  change_row, change_in, found_record, or_none, transition, mark_succeeded, mark_failed,
}
use ansuman_gpu_inference_se.Batch.Contract.{
  Summary, summary, seen, Call, moves, succeeds, fails, Jobs, set_job, apply_to, target_of, refusal,
  effect, expected,
}

module _ {W T : Type 0} (sessions : Sessions W T) (batch_jobs : Table T BatchJob)
    (list_by_status : T → Status → ℕ → List BatchJob) (uuid4 : T → String) (utc_now : ℕ)
    (isoformat : ℕ → Text) where
  abbrev pub row_seen : Option BatchJob → Option Summary
  row_seen found =
      seen (found_record sessions batch_jobs list_by_status uuid4 utc_now isoformat found)

  -- The jobs as a session sees them that has just begun.
  abbrev pub session_view : T → Jobs
  session_view t id = row_seen (batch_jobs.find t id)

  abbrev row_effect : Call → BatchJob → BatchJob
  row_effect (moves id target) =
      with_status sessions batch_jobs list_by_status uuid4 utc_now isoformat target
  row_effect (succeeds id result usage) =
      row_succeeded sessions batch_jobs list_by_status uuid4 utc_now isoformat result usage
  row_effect (fails id code message) =
      row_failed sessions batch_jobs list_by_status uuid4 utc_now isoformat code message

  -- The body of the session loop of a method.
  abbrev pub session_call : Call → Io T (Exit (Option BatchJobRecord))
  session_call call =
      change_in sessions batch_jobs list_by_status uuid4 utc_now isoformat (refusal call)
        (row_effect call) (target_of call)

  abbrev pub postgres_call : Call → Io W (Option BatchJobRecord)
  postgres_call (moves id target) =
      transition sessions batch_jobs list_by_status uuid4 utc_now isoformat id target
  postgres_call (succeeds id result usage) =
      mark_succeeded sessions batch_jobs list_by_status uuid4 utc_now isoformat id result usage
  postgres_call (fails id code message) =
      mark_failed sessions batch_jobs list_by_status uuid4 utc_now isoformat id code message

  -- Each method is its body in a session.
  pub postgres_call_lem :
      (call : Call) (w : W)
      → postgres_call call w
        ≡ (session_scope sessions (session_call call)
              >>= or_none sessions batch_jobs list_by_status uuid4 utc_now isoformat)
            w
  unfolding transition mark_succeeded mark_failed
  postgres_call_lem (moves id target) w = refl
  postgres_call_lem (succeeds id result usage) w = refl
  postgres_call_lem (fails id code message) w = refl

  result_written :
      (a b : Json) (result m : Fields)
      → as_dict (
          get "result_payload"
            (put "completed_at" a (put "usage" b (put "result_payload" (obj result) m))))
        ≡ some result
  result_written a b result m = ap as_dict (
      get-put "completed_at" "result_payload" a
        (put "usage" b (put "result_payload" (obj result) m))
      ∙ get-put "usage" "result_payload" b (put "result_payload" (obj result) m)
      ∙ get-put "result_payload" "result_payload" (obj result) m)

  -- What a method writes to a row reads as what the specification says.
  effect_lem :
      (call : Call) (row : BatchJob)
      → summary (record_from_model (row_effect call row))
        ≡ effect call (summary (record_from_model row))
  unfolding record_from_model
  effect_lem (moves id target) row = refl
  effect_lem (succeeds id result usage) row =
      ap
        (λ x. record (effect (succeeds id result usage) (summary (record_from_model row))) {
          result = x;
        })
        (result_written (str (isoformat utc_now)) (obj (usage_fields usage)) result
          (metadata_of row))
  effect_lem (fails id code message) row =
      ap
        (λ x. record (effect (fails id code message) (summary (record_from_model row))) {
          result = as_dict x;
        })
        (get-put "completed_at" "result_payload" (str (isoformat utc_now)) (metadata_of row))

  -- The body returns, with the answer of the specification.
  abbrev AnswersAs : Option Summary × Jobs → Result (Exit (Option BatchJobRecord)) × T → Type 0
  AnswersAs (s, jobs) (r, t) =
      (found : Option BatchJobRecord) × (r ≡ ok (returned found)) × (seen found ≡ s)

  body_answers :
      (call : Call) (jobs : Jobs) (t : T) (found : Option BatchJob)
      → AnswersAs (apply_to (refusal call) (effect call) (target_of call) (row_seen found) jobs) (
          change_row sessions batch_jobs list_by_status uuid4 utc_now isoformat
            (refusal call)
            (row_effect call)
            found
            t)
  unfolding record_from_model
  body_answers call jobs t none = (none, refl, refl)
  body_answers call jobs t (some row) = choose (refusal call row.status)
    where
      change : Summary
      change = effect call (summary (record_from_model row))

      choose :
          (b : Bool)
          → AnswersAs
              (if b then (none, jobs) else (some change, set_job (target_of call) change jobs))
              ((if b
                  then pure (returned none)
                  else (saved sessions batch_jobs list_by_status uuid4 utc_now isoformat
                        (row_effect call row)
                      >>= λ r. pure (returned (some (record_from_model r)))))
                t)
      choose true = (none, refl, refl)
      choose false =
          (some (record_from_model (row_effect call row)), refl, ap some (effect_lem call row))

  -- A call of the Postgres store answers as the specification does of the committed jobs, and leaves the
  -- database as it was.
  pub postgres_call_answers :
      (call : Call) (w : W)
      → (found : Option BatchJobRecord) × (postgres_call call w ≡ (ok found, w))
        × (seen found ≡ (expected call (session_view (sessions.begin w))).0)
  postgres_call_answers call w =
      let t = sessions.begin w in
      let (found, ends, same) =
        body_answers call (session_view t) t (batch_jobs.find t (target_of call)) in
      let inside = session_scope_returned sessions (session_call call) found w ends in
      let next = or_none sessions batch_jobs list_by_status uuid4 utc_now isoformat in
      (
        found,
        postgres_call_lem call w
            ∙ bind_ok (session_scope sessions (session_call call)) next w (ap (λ p. p.0) inside)
            ∙ ap (λ p. next (some found) p.1) inside,
        same,
      )
