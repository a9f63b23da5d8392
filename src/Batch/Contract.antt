-- ===== src/Batch/Contract.antt =====
-- What the job stores of backend/services/batch/batch_service.py promise a client: the progress of a
-- job that it can read, and how the calls change it.
pub mod Memory
pub mod Rows
pub mod Agreement
mod Examples
use mathlib.Core.Path.{fun_ext}
use ansuman_gpu_inference_se.Prelude.{
  ℕ, ℤ, pos, String, Bool, true, false, not, Option, none, some, List, [], ◌∷◌, ◌≡◌, refl, sym, ap,
  ◌∙◌, arith, lookup, insert, lookup-insert, ◌=?◌, eq_iff, inl, inr, Bool-cases, Option-cases,
  if◌then◌else◌,
}
use ansuman_gpu_inference_se.Text.{Text}
use ansuman_gpu_inference_se.Json.{Json, Fields, get, put}
use ansuman_gpu_inference_se.Json.Dict.{get-put}
use ansuman_gpu_inference_se.Io.{Result, ok, raised, Io}
use ansuman_gpu_inference_se.Session.{Sessions, Table, Exit, returned, completed}
use ansuman_gpu_inference_se.Batch.Job.{
  BatchJobRecord, Status, succeeded, failed, is_cancelled, can_transition,
}
use ansuman_gpu_inference_se.Batch.Store.{
  JobTable, UsageDict, transition, mark_succeeded, mark_failed,
}
use ansuman_gpu_inference_se.Batch.Postgres.{
  BatchJob, record_from_model, with_status, row_succeeded, row_failed, change_in, found_record,
}

-- What a client reads of the progress of a job.
pub record Summary : Type 0 where
  pub status : Status
  pub result : Option Fields
  pub completed_count : ℤ
  pub failed_count : ℤ

abbrev pub summary : BatchJobRecord → Summary
summary job = record {
  status = job.status;
  result = job.result_payload;
  completed_count = job.completed_count;
  failed_count = job.failed_count;
}

abbrev pub seen : Option BatchJobRecord → Option Summary
seen none = none
seen (some job) = some (summary job)

pub data Call : Type 0 where
  moves : String → Status → Call
  succeeds : String → Fields → UsageDict → Call
  fails : String → String → Text → Call

-- The specification: jobs are summaries by id.
abbrev pub Jobs : Type 0
Jobs = String → Option Summary

abbrev pub set_job : String → Summary → Jobs → Jobs
set_job id s jobs j = if id =? j then some s else jobs j

abbrev pub apply_to :
    (Status → Bool) → (Summary → Summary) → String → Option Summary → Jobs → Option Summary × Jobs
apply_to refuse change id none jobs = (none, jobs)
apply_to refuse change id (some s) jobs =
    if refuse s.status then (none, jobs) else (some (change s), set_job id (change s) jobs)

abbrev pub target_of : Call → String
target_of (moves id target) = id
target_of (succeeds id result usage) = id
target_of (fails id code message) = id

abbrev pub refusal : Call → Status → Bool
refusal (moves id target) s = not (can_transition s target)
refusal (succeeds id result usage) s = is_cancelled s
refusal (fails id code message) s = is_cancelled s

abbrev pub effect : Call → Summary → Summary
effect (moves id target) s = record s { status = target }
effect (succeeds id result usage) s = record {
  status = succeeded;
  result = some result;
  completed_count = pos 1;
  failed_count = pos 0;
}
effect (fails id code message) s = record s { status = failed; failed_count = pos 1 }

abbrev pub expected : Call → Jobs → Option Summary × Jobs
expected call jobs =
    apply_to (refusal call) (effect call) (target_of call) (jobs (target_of call)) jobs

-- A store of states `S` refines the specification along a view of its jobs.
pub record Refines {S : Type 0} (run : Call → S → Option Summary × S) (view : S → Jobs)
    : Type 0 where
  pub answers : (call : Call) (s : S) → (run call s).0 ≡ (expected call (view s)).0
  pub follows : (call : Call) (s : S) → view (run call s).1 ≡ (expected call (view s)).1
