-- ===== src/Batch/Store/Cancelled.antt =====
-- Histories of `InMemoryBatchJobStore` in backend/services/batch/batch_service.py.
use mathlib.Core.Option
use ansuman_gpu_inference_se.Prelude.{
  String, ◌≡◌, refl, Option, none, some, List, [], ◌∷◌, arith, ◌=?◌, eq_iff, eq_refl, lookup,
  lookup-insert, ◌⊎◌, inl, inr, Bool, true, false, Option-cases, Bool-cases, ap, ◌∙◌, if◌then◌else◌,
}
use ansuman_gpu_inference_se.Json.{Fields}
use ansuman_gpu_inference_se.Text.{Text}
use ansuman_gpu_inference_se.Io.{ok}
use ansuman_gpu_inference_se.Batch.Job.{BatchJobRecord, Status, cancelled, can_transition}
use ansuman_gpu_inference_se.Batch.Store.{
  JobTable, UsageDict, transition, mark_succeeded, mark_failed, update_unless, refuses_transition,
  move_to, refuses_mark, with_success, with_failure,
}

-- One call of a method that writes to jobs that are there.
pub data Call : Type 0 where
  transition_to : String → Status → Call
  succeed : String → Fields → UsageDict → Call
  fail : String → String → Text → Call

abbrev pub perform : Call → JobTable → JobTable
perform (transition_to k s) w = (transition k s w).1
perform (succeed k result usage) w = (mark_succeeded k result usage w).1
perform (fail k code message) w = (mark_failed k code message w).1

abbrev pub perform_all : List Call → JobTable → JobTable
perform_all [] w = w
perform_all (c ∷ cs) w = perform_all cs (perform c w)

-- What a method of the store does to the job at its key.
abbrev pub edit :
    (BatchJobRecord → Bool) → (BatchJobRecord → BatchJobRecord) → BatchJobRecord → BatchJobRecord
edit refuse change job = if refuse job then job else change job

lookup-update_found :
    (refuse : BatchJobRecord → Bool) (change : BatchJobRecord → BatchJobRecord) (j k : String)
    (found : Option BatchJobRecord) (w : JobTable)
    → lookup j w.jobs ≡ found
    → lookup k (update_unless refuse change j found w).1.jobs
      ≡ (if j =? k then Option.map (edit refuse change) (lookup k w.jobs) else lookup k w.jobs)
lookup-update_found refuse change j k none w e = ground (arith, eq_iff j k, e)
lookup-update_found refuse change j k (some job) w e = elim (Bool-cases (refuse job)) [
  | inl stays ↦ ground (arith, eq_iff j k, e, stays)
  | inr moves ↦ rw moves (simp lookup-insert (ground (arith, eq_iff j k, e, moves)))
]

lookup-update :
    (refuse : BatchJobRecord → Bool) (change : BatchJobRecord → BatchJobRecord) (j k : String)
    (w : JobTable)
    → lookup k (update_unless refuse change j (lookup j w.jobs) w).1.jobs
      ≡ (if j =? k then Option.map (edit refuse change) (lookup k w.jobs) else lookup k w.jobs)
lookup-update refuse change j k w = lookup-update_found refuse change j k (lookup j w.jobs) w refl

-- The job that a call leaves at a key.
abbrev pub edited : Call → String → BatchJobRecord → BatchJobRecord
edited (transition_to j s) k =
    λ job. if j =? k then edit (refuses_transition s) (move_to s) job else job
edited (succeed j result usage) k =
    λ job. if j =? k then edit refuses_mark (with_success result usage) job else job
edited (fail j code message) k =
    λ job. if j =? k then edit refuses_mark (with_failure code message) job else job

map-if :
    (b : Bool) (f : BatchJobRecord → BatchJobRecord) (o : Option BatchJobRecord)
    → (if b then Option.map f o else o) ≡ Option.map (λ job. if b then f job else job) o
map-if true f o = refl
map-if false f none = refl
map-if false f (some a) = refl

pub lookup-perform :
    (c : Call) (k : String) (w : JobTable)
    → lookup k (perform c w).jobs ≡ Option.map (edited c k) (lookup k w.jobs)
unfolding transition mark_succeeded mark_failed
lookup-perform (transition_to j s) k w =
    lookup-update _ _ j k w ∙ map-if (j =? k) _ (lookup k w.jobs)
lookup-perform (succeed j result usage) k w =
    lookup-update _ _ j k w ∙ map-if (j =? k) _ (lookup k w.jobs)
lookup-perform (fail j code message) k w =
    lookup-update _ _ j k w ∙ map-if (j =? k) _ (lookup k w.jobs)

edited_cancelled :
    (c : Call) (k : String) (job : BatchJobRecord) → job.status ≡ cancelled → edited c k job ≡ job
unfolding can_transition
edited_cancelled (transition_to j s) k job h = ground arith
edited_cancelled _ k job h = ground arith

-- A cancelled job stays as it is, whatever methods are called on whatever jobs: its result, its error
-- and its counts are never written again.
pub cancelled_absorbs :
    (cs : List Call) (k : String) (job : BatchJobRecord) (w : JobTable)
    → lookup k w.jobs ≡ some job
    → job.status ≡ cancelled
    → lookup k (perform_all cs w).jobs ≡ some job
cancelled_absorbs [] k job w e h = e
cancelled_absorbs (c ∷ cs) k job w e h =
    cancelled_absorbs cs k job (perform c w)
      (lookup-perform c k w ∙ ap (Option.map (edited c k)) e ∙ ap some (edited_cancelled c k job h))
      h

-- `transition` moves a job along the table of allowed transitions or leaves the store as it is, and
-- it reports which of the two it did. Other jobs are untouched.
pub transition_exact :
    (k : String) (target : Status) (w : JobTable)
    → ((transition k target w).0 ≡ ok none) × ((transition k target w).1 ≡ w)
      ⊎ ((job : BatchJobRecord) × (lookup k w.jobs ≡ some job)
          × (can_transition job.status target ≡ true)
          × ((transition k target w).0 ≡ ok (some (record job { status = target })))
          × (lookup k (transition k target w).1.jobs ≡ some (record job { status = target }))
          × ((j : String)
              → (k =? j) ≡ false
              → lookup j (transition k target w).1.jobs ≡ lookup j w.jobs))
transition_exact k target w = elim (Option-cases (lookup k w.jobs)) [
  | inl missing ↦
      inl
        (unfold transition in ground (arith, missing), unfold transition in ground (arith, missing))
  | inr (job, e) ↦ elim (Bool-cases (can_transition job.status target)) [
    | inl allowed ↦ inr (
      job,
      e,
      allowed,
      unfold transition in ground (arith, e, allowed),
      unfold transition in
          rw (lookup-update (refuses_transition target) (move_to target) k k w)
            (ground (arith, e, allowed, eq_refl k)),
      λ j apart.
          unfold transition in
          rw (lookup-update (refuses_transition target) (move_to target) k j w)
            (ground (arith, apart)),
    )
    | inr refused ↦ inl (
      unfold transition in ground (arith, e, refused),
      unfold transition in ground (arith, e, refused),
    )
  ]
]
