-- ===== src/Batch/Queue/Order.antt =====
-- Order and uniqueness in `InMemoryBatchQueue` of backend/services/batch/batch_queue.py.
use ansuman_gpu_inference_se.Prelude.{
  String, ◌≡◌, refl, Bool, false, some, List, [], ◌∷◌, ◌++◌, contains, eq_iff, ◌=?◌, arith,
}
use ansuman_gpu_inference_se.Io.{ok}
use ansuman_gpu_inference_se.Batch.Queue.{Pending, pop, enqueue, dequeue}

-- No id stands twice.
abbrev pub IsUnique : List String → Type 0
IsUnique [] = Unit
IsUnique (j ∷ js) = (contains j js ≡ false) × IsUnique js

contains-append :
    (k j : String) (js : List String)
    → contains k js ≡ false
    → (k =? j) ≡ false
    → contains k (js ++ j ∷ []) ≡ false
contains-append k j [] h d = ground (arith, eq_iff j k, eq_iff k j)
contains-append k j (i ∷ is) h d = ground (arith, contains-append k j is, eq_iff i k)

append-IsUnique :
    (j : String) (js : List String) → IsUnique js → contains j js ≡ false → IsUnique (js ++ j ∷ [])
append-IsUnique j [] u h = (refl, tt)
append-IsUnique j (i ∷ is) (n, u) h =
    (contains-append i j is n (ground (arith, eq_iff i j)), append-IsUnique j is u (ground arith))

pop-IsUnique : (js : List String) (fail : Bool) → IsUnique js → IsUnique (pop js fail).1.job_ids
unfolding pop
pop-IsUnique [] fail u = tt
pop-IsUnique (j ∷ js) fail u = u.1

-- Enqueueing and dequeueing keep every id at most once in the queue.
pub queue-IsUnique :
    (j : String) (q : Pending)
    → IsUnique q.job_ids
    → IsUnique (enqueue j q).1.job_ids × IsUnique (dequeue q).1.job_ids
queue-IsUnique j q u = (
  unfold enqueue in ground (arith, append-IsUnique j q.job_ids u),
  unfold dequeue in pop-IsUnique q.job_ids q.fail_enqueue u,
)

-- Ids leave in the order in which they were enqueued: a new id that is accepted comes out of the
-- queue behind all that were pending, each of which comes out unchanged.
pub dequeue-enqueue :
    (j k : String) (js : List String)
    → contains j (k ∷ js) ≡ false
    → let q : Pending = record { job_ids = k ∷ js; fail_enqueue = false } in
      dequeue (enqueue j q).1 ≡ (ok (some k), (enqueue j (dequeue q).1).1)
unfolding enqueue dequeue
dequeue-enqueue j k js h = ground arith
