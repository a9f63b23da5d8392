-- ===== src/Batch/Store/Onward.antt =====
-- What transitions alone make of the jobs of `InMemoryBatchJobStore` in
-- backend/services/batch/batch_service.py.
use mathlib.Core.Option
use ansuman_gpu_inference_se.Prelude.{
  none, Option, sym, subst, arith, String, ◌≡◌, refl, ap, ◌∙◌, some, List, [], ◌∷◌, Bool, true,
  false, not, lookup, ◌=?◌, if◌then◌else◌,
}
use ansuman_gpu_inference_se.Batch.Job.{is_terminal, can_transition, BatchJobRecord, Status}
use ansuman_gpu_inference_se.Batch.Job.States.{
  Reaches, here, then_to, Reaches-trans, can_transition_acyclic,
}
use ansuman_gpu_inference_se.Batch.Store.{JobTable, transition, refuses_transition, move_to}
use ansuman_gpu_inference_se.Batch.Store.Cancelled.{transition_to, edit, edited, lookup-perform}

-- Transitions of jobs, in order.
abbrev pub transition_all : List (String × Status) → JobTable → JobTable
transition_all [] w = w
transition_all ((j, target) ∷ moves) w = transition_all moves (transition j target w).1

-- A job behind another: the same but for its state, which allowed transitions reach.
abbrev pub Follows : BatchJobRecord → BatchJobRecord → Type 0
Follows job job' = (job' ≡ record job { status = job'.status }) × Reaches job.status job'.status

edit-Follows :
    (target : Status) (job : BatchJobRecord)
    → Follows job (edit (refuses_transition target) (move_to target) job)
edit-Follows target job = choose (can_transition job.status target) refl
  where
    choose :
        (b : Bool)
        → can_transition job.status target ≡ b
        → Follows job (if not b then job else move_to target job)
    choose true h = (refl, then_to here h)
    choose false h = (refl, here)

edited-Follows :
    (j k : String) (target : Status) (job : BatchJobRecord)
    → Follows job (edited (transition_to j target) k job)
edited-Follows j k target job = choose (j =? k)
  where
    choose :
        (b : Bool)
        → Follows job (if b then edit (refuses_transition target) (move_to target) job else job)
    choose true = edit-Follows target job
    choose false = (refl, here)

Follows-trans : (a b c : BatchJobRecord) → Follows a b → Follows b c → Follows a c
Follows-trans a b c (e, r) (f, q) = (
  f ∙ ap {A = BatchJobRecord} {B = BatchJobRecord} (λ job. record job { status = c.status }) e,
  Reaches-trans r q,
)

-- Any transitions of any jobs leave a job there, with nothing changed but its state, which it reaches along
-- the table of allowed transitions.
pub transition_all-Follows :
    (moves : List (String × Status)) (k : String) (job : BatchJobRecord) (w : JobTable)
    → lookup k w.jobs ≡ some job
    → (job' : BatchJobRecord) × (lookup k (transition_all moves w).jobs ≡ some job')
      × Follows job job'
transition_all-Follows [] k job w e = (job, e, (refl, here))
transition_all-Follows ((j, target) ∷ moves) k job w e =
    let next = edited (transition_to j target) k job in
    let found =
      lookup-perform (transition_to j target) k w
      ∙ ap (Option.map (edited (transition_to j target) k)) e in
    let (job', e', follows) = transition_all-Follows moves k next (transition j target w).1 found in
    (job', e', Follows-trans job next job' (edited-Follows j k target job) follows)

same_job :
    (job job' : BatchJobRecord) (o : Option BatchJobRecord)
    → o ≡ some job
    → o ≡ some job'
    → job ≡ job'
same_job job job' o e e' = ap (λ q. elim q [ none ↦ job | some j ↦ j ]) (sym e ∙ e')

back_to : (job job' : BatchJobRecord) → Follows job job' → job.status ≡ job'.status → job' ≡ job
back_to job job' (e, r) same =
    let restored : record job { status = job'.status } ≡ job =
      ap {A = Status} {B = BatchJobRecord} (λ s. record job { status = s }) (sym same) in
    e ∙ restored

-- Through transitions alone, whatever jobs they are of, no job comes back to a state that it has left: one
-- that has the same state before and behind them was never anything else in between.
pub transitions_never_return :
    (before behind : List (String × Status)) (k : String) (job job1 job2 : BatchJobRecord)
    (w : JobTable)
    → lookup k w.jobs ≡ some job
    → lookup k (transition_all before w).jobs ≡ some job1
    → lookup k (transition_all behind (transition_all before w)).jobs ≡ some job2
    → job2.status ≡ job.status
    → job1 ≡ job
transitions_never_return before behind k job job1 job2 w e e1 e2 back =
    let w1 = transition_all before w in
    let (j1, f1, (s1, r1)) = transition_all-Follows before k job w e in
    let (j2, f2, (s2, r2)) = transition_all-Follows behind k job1 w1 e1 in
    let is1 = same_job j1 job1 (lookup k w1.jobs) f1 e1 in
    let is2 = same_job j2 job2 (lookup k (transition_all behind w1).jobs) f2 e2 in
    let there : Follows job job1 = subst (Follows job) is1 (s1, r1) in
    let again : Reaches job1.status job.status =
      subst (Reaches job1.status) (ap (λ j. j.status) is2 ∙ back) r2 in
    back_to job job1 there ((can_transition_acyclic job.status job1.status).0 there.1 again)

Reaches-terminal : {s t : Status} → Reaches s t → is_terminal s ≡ true → s ≡ t
unfolding can_transition
Reaches-terminal here h = refl
Reaches-terminal (then_to {t = t} {u = u} r a) h = ground (arith, Reaches-terminal r h)

-- Transitions alone leave a job in a terminal state as it is.
pub transitions-terminal :
    (moves : List (String × Status)) (k : String) (job : BatchJobRecord) (w : JobTable)
    → lookup k w.jobs ≡ some job
    → is_terminal job.status ≡ true
    → lookup k (transition_all moves w).jobs ≡ some job
transitions-terminal moves k job w e ended =
    let (job', found, (same, r)) = transition_all-Follows moves k job w e in
    found ∙ ap some (back_to job job' (same, r) (Reaches-terminal r ended))
