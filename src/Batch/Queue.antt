-- ===== src/Batch/Queue.antt =====
-- backend/services/batch/batch_queue.py: the pending job ids, in Redis or in memory.
pub mod Order
use ansuman_gpu_inference_se.Prelude.{
  ℤ, pos, negsuc, String, Bool, true, false, Option, none, some, List, [], ◌∷◌, ◌++◌, contains,
  if◌then◌else◌,
}
use ansuman_gpu_inference_se.Io.{error, ok, raised, Io, pure, ◌>>=◌, ◌>>◌}
use ansuman_gpu_inference_se.RateLimit.Redis.{RedisLike}

-- The protocol `BatchQueue`.
pub record BatchQueue (W : Type 0) : Type 0 where
  pub enqueue : String → Io W (Unit {0})
  pub dequeue : Io W (Option String)
  pub is_in : String → Io W Bool

abbrev pub batch_queue_key : String
batch_queue_key = "batch_queue:pending"

-- `RedisBatchQueue`
module _ {W : Type 0} (redis : RedisLike W) (queue_key : String) where
  unfoldable pub redis_enqueue : String → Io W (Unit {0})
  redis_enqueue job_id = redis.rpush queue_key job_id >> pure tt

  unfoldable pub redis_dequeue : Io W (Option String)
  redis_dequeue = redis.lpop queue_key

  unfoldable pub redis_contains : String → Io W Bool
  redis_contains job_id = do
    values ← redis.lrange queue_key (pos 0) (negsuc 0)
    pure (contains job_id values)

  abbrev pub redis_queue : BatchQueue W
  redis_queue = record { enqueue = redis_enqueue; dequeue = redis_dequeue; is_in = redis_contains }

-- `InMemoryBatchQueue`
pub record Pending : Type 0 where
  pub job_ids : List String
  pub fail_enqueue : Bool

unfoldable pub enqueue : String → Io Pending (Unit {0})
enqueue job_id q = if q.fail_enqueue then (raised (error "redis enqueue failed"), q) else (
  ok tt,
  if contains job_id q.job_ids then q else record q { job_ids = q.job_ids ++ job_id ∷ [] },
)

pop : List String → Bool → Option String × Pending
pop [] fail = (none, record { job_ids = []; fail_enqueue = fail })
pop (j ∷ js) fail = (some j, record { job_ids = js; fail_enqueue = fail })

unfoldable pub dequeue : Io Pending (Option String)
unfolding pop
dequeue q = let (j, q') = pop q.job_ids q.fail_enqueue in (ok j, q')

unfoldable pub is_in : String → Io Pending Bool
is_in job_id q = (ok (contains job_id q.job_ids), q)

abbrev pub in_memory_queue : BatchQueue Pending
in_memory_queue = record { enqueue = enqueue; dequeue = dequeue; is_in = is_in }
