-- ===== src/Batch/Contract/Memory.antt =====
-- `InMemoryBatchJobStore` keeps the contract.
use mathlib.Core.Path.{fun_ext}
use ansuman_gpu_inference_se.Prelude.{
  String, Bool, true, false, Option, none, some, ◌≡◌, refl, ap, ◌∙◌, lookup, insert, lookup-insert,
  ◌=?◌, if◌then◌else◌,
}
use ansuman_gpu_inference_se.Io.{Result, ok, raised, Io}
use ansuman_gpu_inference_se.Batch.Job.{BatchJobRecord, Status}
use ansuman_gpu_inference_se.Batch.Store.{
  JobTable, update_unless, move_to, with_success, with_failure, transition, mark_succeeded,
  mark_failed,
}
use ansuman_gpu_inference_se.Batch.Contract.{
  Summary, summary, seen, Call, moves, succeeds, fails, Jobs, set_job, apply_to, refusal, effect,
  expected, Refines,
}

-- The in-memory store.
abbrev pub memory_view : JobTable → Jobs
memory_view w id = seen (lookup id w.jobs)

abbrev memory_call : Call → Io JobTable (Option BatchJobRecord)
memory_call (moves id target) = transition id target
memory_call (succeeds id result usage) = mark_succeeded id result usage
memory_call (fails id code message) = mark_failed id code message

abbrev answer_of : Result (Option BatchJobRecord) → Option Summary
answer_of (ok found) = seen found
answer_of (raised e) = none

abbrev pub run_memory : Call → JobTable → Option Summary × JobTable
run_memory call w = let (r, w') = memory_call call w in (answer_of r, w')

seen-if :
    (b : Bool) (job : BatchJobRecord) (other : Option BatchJobRecord)
    → seen (if b then some job else other) ≡ (if b then some (summary job) else seen other)
seen-if true job other = refl
seen-if false job other = refl

memory-set :
    (id : String) (job : BatchJobRecord) (w : JobTable)
    → memory_view (record w { jobs = insert id job w.jobs })
      ≡ set_job id (summary job) (memory_view w)
memory-set id job w =
    fun_ext λ j. ap seen (lookup-insert id j job w.jobs) ∙ seen-if (id =? j) job (lookup j w.jobs)

-- A guarded write to the job that was found does what the specification does.
module _ (refuse : Status → Bool) (change : BatchJobRecord → BatchJobRecord)
    (effect' : Summary → Summary)
    (changes : (job : BatchJobRecord) → summary (change job) ≡ effect' (summary job)) (id : String)
    (w : JobTable) where
  abbrev Agrees : Option Summary × Jobs → Result (Option BatchJobRecord) × JobTable → Type 0
  Agrees (s, jobs) (r, w') = (answer_of r ≡ s) × (memory_view w' ≡ jobs)

  write-Agrees :
      (found : Option BatchJobRecord)
      → Agrees
          (apply_to refuse effect' id (seen found) (memory_view w))
          (update_unless (λ job. refuse job.status) change id found w)
  write-Agrees none = (refl, refl)
  write-Agrees (some job) = choose (refuse job.status)
    where
      choose :
          (b : Bool)
          → Agrees
              (if b then (none, memory_view w) else (
                some (effect' (summary job)),
                set_job id (effect' (summary job)) (memory_view w),
              ))
              (if b
                then (ok none, w)
                else (ok (some (change job)), record w { jobs = insert id (change job) w.jobs }))
      choose true = (refl, refl)
      choose false = (
        ap some (changes job),
        memory-set id (change job) w ∙ ap (λ s. set_job id s (memory_view w)) (changes job),
      )

memory_agrees :
    (call : Call) (w : JobTable)
    → ((run_memory call w).0 ≡ (expected call (memory_view w)).0)
      × (memory_view (run_memory call w).1 ≡ (expected call (memory_view w)).1)
unfolding transition mark_succeeded mark_failed
memory_agrees (moves id target) w =
    write-Agrees (refusal (moves id target)) (move_to target) (effect (moves id target))
      (λ job. refl) id w (lookup id w.jobs)
memory_agrees (succeeds id result usage) w =
    write-Agrees (refusal (succeeds id result usage)) (with_success result usage)
      (effect (succeeds id result usage)) (λ job. refl) id w (lookup id w.jobs)
memory_agrees (fails id code message) w =
    write-Agrees (refusal (fails id code message)) (with_failure code message)
      (effect (fails id code message)) (λ job. refl) id w (lookup id w.jobs)

pub memory-Refines : Refines run_memory memory_view
memory-Refines = record {
  answers = λ call w. (memory_agrees call w).0;
  follows = λ call w. (memory_agrees call w).1;
}
