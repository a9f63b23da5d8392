-- ===== src/Batch/Recovery/Missing.antt =====
-- What the recovery scanner (backend/services/batch/recovery_scanner.py) finds and re-enqueues, over any
-- store and queue that answer.
use ansuman_gpu_inference_se.Prelude.{
  ℕ, ◌+◌, String, ◌≡◌, refl, sym, ap, subst, ◌∙◌, Bool, true, false, List, [], ◌∷◌, ◌++◌, contains,
  length, length-append, arith, eq_refl, All, Bool-cases, inl, inr, if◌then◌else◌,
}
use ansuman_gpu_inference_se.Io.{Result, ok, Io, ◌>>=◌, ◌>>◌}
use ansuman_gpu_inference_se.Io.Keeps.{bind_ok}
use ansuman_gpu_inference_se.Batch.Job.{BatchJobRecord}
use ansuman_gpu_inference_se.Batch.Store.{BatchJobStore}
use ansuman_gpu_inference_se.Batch.Queue.{BatchQueue}
use ansuman_gpu_inference_se.Batch.Recovery.{scan, reenqueue_missing}

-- What a scan relies on where `Up` holds, that is where the store and the queue answer: `listed` are the
-- jobs that the store lists as recoverable, `pending` the ids in the queue.
pub record ScanLaws {W : Type 0} (store : BatchJobStore W) (queue : BatchQueue W) (limit : ℕ)
    (listed : W → List BatchJobRecord) (pending : W → List String) (Up : W → Type 0) : Type 0 where
  pub list_lem : (w : W) → Up w → store.list_recoverable limit w ≡ (ok (listed w), w)
  pub is_in_lem : (k : String) (w : W) → Up w → queue.is_in k w ≡ (ok (contains k (pending w)), w)
  pub enqueue_ok : (k : String) (w : W) → Up w → (queue.enqueue k w).0 ≡ ok tt
  pub enqueue_pending :
      (k : String) (w : W)
      → Up w
      → contains k (pending w) ≡ false
      → pending (queue.enqueue k w).1 ≡ pending w ++ k ∷ []
  pub enqueue_listed : (k : String) (w : W) → Up w → listed (queue.enqueue k w).1 ≡ listed w
  pub enqueue_up : (k : String) (w : W) → Up w → Up (queue.enqueue k w).1

-- One id that is added unless it is there.
abbrev with_id : String → List String → List String
with_id k js = if contains k js then js else js ++ k ∷ []

-- The queue behind a scan.
abbrev pub with_missing : List BatchJobRecord → List String → List String
with_missing [] js = js
with_missing (job ∷ jobs) js = with_missing jobs (with_id job.id js)

contains-append :
    (k : String) (js is : List String) → contains k js ≡ true → contains k (js ++ is) ≡ true
contains-append k [] is h = cc
contains-append k (j ∷ js) is h = ground (arith, contains-append k js is)

contains_last : (k : String) (js : List String) → contains k (js ++ k ∷ []) ≡ true
contains_last k [] = ground (arith, eq_refl k)
contains_last k (j ∷ js) = ground (arith, contains_last k js)

contains-with_id :
    (k j : String) (js : List String) → contains k js ≡ true → contains k (with_id j js) ≡ true
contains-with_id k j js h = ground (arith, contains-append k js (j ∷ []))

contains-with_id_self : (k : String) (js : List String) → contains k (with_id k js) ≡ true
contains-with_id_self k js = ground (arith, contains_last k js)

contains-with_missing :
    (jobs : List BatchJobRecord) (k : String) (js : List String)
    → contains k js ≡ true
    → contains k (with_missing jobs js) ≡ true
contains-with_missing [] k js h = h
contains-with_missing (job ∷ jobs) k js h =
    contains-with_missing jobs k (with_id job.id js) (contains-with_id k job.id js h)

-- Every job of the list is in the queue.
abbrev pub AllPending : List BatchJobRecord → List String → Type 0
AllPending jobs js = All (λ job. contains job.id js ≡ true) jobs

with_missing-AllPending :
    (jobs : List BatchJobRecord) (js : List String) → AllPending jobs (with_missing jobs js)
with_missing-AllPending [] js = tt
with_missing-AllPending (job ∷ jobs) js = (
  contains-with_missing jobs job.id (with_id job.id js) (contains-with_id_self job.id js),
  with_missing-AllPending jobs (with_id job.id js),
)

with_missing-of_AllPending :
    (jobs : List BatchJobRecord) (js : List String) → AllPending jobs js → with_missing jobs js ≡ js
with_missing-of_AllPending [] js h = refl
with_missing-of_AllPending (job ∷ jobs) js h = rw (h.0) (with_missing-of_AllPending jobs js h.1)

-- How many ids a scan adds.
abbrev missing_count : List BatchJobRecord → List String → ℕ
missing_count [] js = 0
missing_count (job ∷ jobs) js =
    if contains job.id js then missing_count jobs js else missing_count jobs (js ++ job.id ∷ []) + 1

missing_count-of_AllPending :
    (jobs : List BatchJobRecord) (js : List String) → AllPending jobs js → missing_count jobs js ≡ 0
missing_count-of_AllPending [] js h = refl
missing_count-of_AllPending (job ∷ jobs) js h = rw (h.0) (missing_count-of_AllPending jobs js h.1)

length-with_missing :
    (jobs : List BatchJobRecord) (js : List String)
    → length (with_missing jobs js) ≡ length js + missing_count jobs js
length-with_missing [] js = omega arith
length-with_missing (job ∷ jobs) js = elim (Bool-cases (contains job.id js)) [
  | inl there ↦ rw there (length-with_missing jobs js)
  | inr absent ↦
      rw absent (
        omega (arith, length-with_missing jobs (js ++ job.id ∷ []), length-append js (job.id ∷ [])))
]

module _ {W : Type 0} (store : BatchJobStore W) (queue : BatchQueue W) (limit : ℕ)
    {listed : W → List BatchJobRecord} {pending : W → List String} {Up : W → Type 0}
    (laws : ScanLaws store queue limit listed pending Up) where
  -- The test of the scanner answers, and changes nothing.
  asks :
      {A : Type 0} (k : String) (f : Bool → Io W A) (w : W)
      → Up w
      → (queue.is_in k >>= f) w ≡ f (contains k (pending w)) w
  asks k f w up =
      let answer = laws.is_in_lem k w up in
      bind_ok (queue.is_in k) f w (ap (λ p. p.0) answer)
      ∙ ap (λ p. f (contains k (pending w)) p.1) answer

  abbrev Scanned :
      List BatchJobRecord → ℕ → List String → List BatchJobRecord → Result ℕ × W → Type 0
  Scanned jobs n js all (r, w') =
      (r ≡ ok (n + missing_count jobs js))
      × (pending w' ≡ with_missing jobs js)
      × (listed w' ≡ all)
      × Up w'

  scan-Scanned :
      (jobs : List BatchJobRecord) (n : ℕ) (w : W)
      → Up w
      → Scanned jobs n (pending w) (listed w) (scan store queue jobs n w)
  unfolding scan
  scan-Scanned [] n w up = (ap ok (omega arith), refl, refl, up)
  scan-Scanned (job ∷ jobs) n w up =
      subst (Scanned (job ∷ jobs) n (pending w) (listed w)) (sym (asks job.id go w up))
        (choose (contains job.id (pending w)) (scan-Scanned jobs) refl)
    where
      go : Bool → Io W ℕ
      go found =
          if found
          then scan store queue jobs n
          else (queue.enqueue job.id >> scan store queue jobs (n + 1))

      choose :
          (b : Bool)
          → ((m : ℕ) (v : W)
              → Up v
              → Scanned jobs m (pending v) (listed v) (scan store queue jobs m v))
          → contains job.id (pending w) ≡ b
          → Scanned (job ∷ jobs) n (pending w) (listed w) (go b w)
      choose true rest there = rw there (rest n w up)
      choose false rest absent =
          let w1 = (queue.enqueue job.id w).1 in
          let next = scan store queue jobs (n + 1) in
          let (counts, adds, lists, up') = rest (n + 1) w1 (laws.enqueue_up job.id w up) in
          let grown = laws.enqueue_pending job.id w up absent in
          let here = ap (λ js. missing_count jobs js) grown in
          subst (Scanned (job ∷ jobs) n (pending w) (listed w))
            (sym (bind_ok (queue.enqueue job.id) (λ _. next) w (laws.enqueue_ok job.id w up)))
            (rw absent (
              counts ∙ ap ok (omega (arith, here)),
              adds ∙ ap (with_missing jobs) grown,
              lists ∙ laws.enqueue_listed job.id w up,
              up',
            ))

  scan-pending :
      (jobs : List BatchJobRecord) (n : ℕ) (w : W)
      → Up w
      → AllPending jobs (pending w)
      → scan store queue jobs n w ≡ (ok n, w)
  unfolding scan
  scan-pending [] n w up all = refl
  scan-pending (job ∷ jobs) n w up (there, all) =
      let go : Bool → Io W ℕ = λ found.
        if found
        then scan store queue jobs n
        else (queue.enqueue job.id >> scan store queue jobs (n + 1)) in
      asks job.id go w up ∙ ap (λ b. go b w) there ∙ scan-pending jobs n w up all

  lists : (w : W) → Up w → reenqueue_missing store queue limit w ≡ scan store queue (listed w) 0 w
  unfolding reenqueue_missing
  lists w up =
      let answer = laws.list_lem w up in
      let go : List BatchJobRecord → Io W ℕ = λ jobs. scan store queue jobs 0 in
      bind_ok (store.list_recoverable limit) go w (ap (λ p. p.0) answer)
      ∙ ap (λ p. go (listed w) p.1) answer

  -- Where the calls of the store and the queue answer, and enqueueing appends the id and leaves the jobs
  -- that the store lists as they were, every job that a scan listed is pending behind it, the store lists
  -- the same jobs, and the answer is the number of ids that the queue grew by; a second scan does
  -- nothing.
  pub reenqueue_missing_lem :
      (w : W)
      → Up w
      → let (r, w') = reenqueue_missing store queue limit w in
        AllPending (listed w) (pending w')
        × ((n : ℕ) × (r ≡ ok n) × (length (pending w') ≡ length (pending w) + n))
        × (listed w' ≡ listed w)
        × (reenqueue_missing store queue limit w' ≡ (ok 0, w'))
  reenqueue_missing_lem w up =
      let w' = (reenqueue_missing store queue limit w).1 in
      let (counts, adds, same, up') =
        subst (Scanned (listed w) 0 (pending w) (listed w)) (sym (lists w up))
          (scan-Scanned (listed w) 0 w up) in
      let all : AllPending (listed w) (pending w') =
        subst (AllPending (listed w)) (sym adds) (with_missing-AllPending (listed w) (pending w)) in
      let again : AllPending (listed w') (pending w') =
        subst (λ jobs. AllPending jobs (pending w')) (sym same) all in
      (
        all,
        (
          missing_count (listed w) (pending w),
          counts ∙ ap ok (omega arith),
          ap length adds ∙ length-with_missing (listed w) (pending w),
        ),
        same,
        lists w' up' ∙ scan-pending (listed w') 0 w' up' again,
      )
