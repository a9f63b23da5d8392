-- ===== src/Batch/Recovery/Backends.antt =====
-- The stores and queues that the recovery scanner runs over: those in memory, and Postgres with Redis as
-- backend/workers/recovery_scanner.py builds them.
use ansuman_gpu_inference_se.Prelude.{
  ℕ, ℤ, pos, negsuc, String, ◌≡◌, refl, ap, sym, subst, ◌∙◌, some, Bool, false, List, [], ◌∷◌, ◌++◌,
  contains, take, map, arith,
}
use ansuman_gpu_inference_se.Text.{Text}
use ansuman_gpu_inference_se.Io.{ok, Io, pure}
use ansuman_gpu_inference_se.Io.Keeps.{bind_ok}
use ansuman_gpu_inference_se.Session.{
  Sessions, Table, Exit, returned, session_scope, session_scope_returned,
}
use ansuman_gpu_inference_se.RateLimit.Redis.{RedisLike}
use ansuman_gpu_inference_se.Batch.Job.{BatchJobRecord, Status, queued}
use ansuman_gpu_inference_se.Batch.Store.{queued_jobs, list_recoverable}
use ansuman_gpu_inference_se.Batch.Queue.{
  enqueue, is_in, redis_enqueue, redis_contains, redis_queue,
}
use ansuman_gpu_inference_se.Batch.Memory.{Memory, memory_store, memory_queue}
use ansuman_gpu_inference_se.Batch.Postgres.{BatchJob, record_from_model, postgres_store}
use ansuman_gpu_inference_se.Batch.Postgres
use ansuman_gpu_inference_se.Batch.Recovery.Missing.{ScanLaws}

abbrev pub memory_listed : ℕ → Memory → List BatchJobRecord
memory_listed limit (t, q) = take limit (queued_jobs t.jobs)

abbrev pub memory_pending : Memory → List String
memory_pending (t, q) = q.job_ids

abbrev pub Accepts : Memory → Type 0
Accepts (t, q) = q.fail_enqueue ≡ false

pub memory-ScanLaws :
    (limit : ℕ)
    → ScanLaws memory_store memory_queue limit (memory_listed limit) memory_pending Accepts
unfolding list_recoverable enqueue is_in
memory-ScanLaws limit = record {
  list_lem = λ w up. refl;
  is_in_lem = λ k w up. refl;
  enqueue_ok = λ k w up. ground (arith, up);
  enqueue_pending = λ k w up absent. ground (arith, up, absent);
  enqueue_listed = λ k w up. refl;
  enqueue_up = λ k w up. ground (arith, up);
}

-- What the command reference documents of RPUSH and of LRANGE from 0 to -1, where Redis answers; the rows
-- of the database are none of its business.
pub record ListLaws {W T : Type 0} (redis : RedisLike W) (begin : W → T)
    (values : W → String → List String) (Up : W → Type 0) : Type 0 where
  pub rpush_answers : (k v : String) (w : W) → Up w → (n : ℤ) × ((redis.rpush k v w).0 ≡ ok n)
  pub rpush_values :
      (k v : String) (w : W) → Up w → values (redis.rpush k v w).1 k ≡ values w k ++ v ∷ []
  pub rpush_begin : (k v : String) (w : W) → begin (redis.rpush k v w).1 ≡ begin w
  pub rpush_up : (k v : String) (w : W) → Up w → Up (redis.rpush k v w).1
  pub lrange_lem :
      (k : String) (w : W) → Up w → redis.lrange k (pos 0) (negsuc 0) w ≡ (ok (values w k), w)

module _ {W T : Type 0} (sessions : Sessions W T) (batch_jobs : Table T BatchJob)
    (list_by_status : T → Status → ℕ → List BatchJob) (uuid4 : T → String) (utc_now : ℕ)
    (isoformat : ℕ → Text) (redis : RedisLike W) (key : String) {values : W → String → List String}
    {Up : W → Type 0} (laws : ListLaws redis sessions.begin values Up) where
  abbrev rows_listed : ℕ → W → List BatchJobRecord
  rows_listed limit w = map record_from_model (list_by_status (sessions.begin w) queued limit)

  rows_list_lem :
      (limit : ℕ) (w : W)
      → Postgres.list_recoverable sessions batch_jobs list_by_status uuid4 utc_now isoformat limit w
        ≡ (ok (rows_listed limit w), w)
  unfolding Postgres.list_recoverable
  rows_list_lem limit w =
      let body : Io T (Exit (List BatchJobRecord)) =
        λ t. (ok (returned (map record_from_model (list_by_status t queued limit))), t) in
      let next = Postgres.or_nil sessions batch_jobs list_by_status uuid4 utc_now isoformat in
      let inside = session_scope_returned sessions body (rows_listed limit w) w refl in
      bind_ok (session_scope sessions body) next w (ap (λ p. p.0) inside)
      ∙ ap (λ p. next (some (rows_listed limit w)) p.1) inside

  enqueue_lem :
      (k : String) (w : W) → Up w → redis_enqueue redis key k w ≡ (ok tt, (redis.rpush key k w).1)
  unfolding redis_enqueue
  enqueue_lem k w up =
      bind_ok (redis.rpush key k) (λ _. pure tt) w (laws.rpush_answers key k w up).1

  -- The scanner process meets what a scan relies on.
  pub rows-ScanLaws :
      (limit : ℕ)
      → ScanLaws
          (postgres_store sessions batch_jobs list_by_status uuid4 utc_now isoformat)
          (redis_queue redis key)
          limit
          (rows_listed limit)
          (λ w. values w key)
          Up
  unfolding redis_contains
  rows-ScanLaws limit = record {
    list_lem = λ w up. rows_list_lem limit w;
    is_in_lem = λ k w up.
        let answer = laws.lrange_lem key w up in
        let next : List String → Io W Bool = λ vs. pure (contains k vs) in
        bind_ok (redis.lrange key (pos 0) (negsuc 0)) next w (ap (λ p. p.0) answer)
        ∙ ap (λ p. next (values w key) p.1) answer;
    enqueue_ok = λ k w up. ap (λ p. p.0) (enqueue_lem k w up);
    enqueue_pending = λ k w up absent.
        ap (λ p. values p.1 key) (enqueue_lem k w up) ∙ laws.rpush_values key k w up;
    enqueue_listed = λ k w up.
        ap (λ p. rows_listed limit p.1) (enqueue_lem k w up)
        ∙ ap (λ t. map record_from_model (list_by_status t queued limit))
            (laws.rpush_begin key k w);
    enqueue_up =
        λ k w up. subst (λ p. Up p.1) (sym (enqueue_lem k w up)) (laws.rpush_up key k w up);
  }
