-- ===== src/RateLimit/Concurrency.antt =====
-- backend/services/rate_limit/concurrency_limiter.py: slots for concurrent requests.
pub mod Slots
pub mod Race
use Prim.Native.String.{◌++◌}
use ansuman_gpu_inference_se.Prelude.{
  ℤ, pos, ltb_ℤ, leb_ℤ, String, none, [], ◌∷◌, Bool, true, false, if◌then◌else◌,
}
use ansuman_gpu_inference_se.Io.{
  AppError, app, ok, Io, within, pure, raise, try_except, ◌>>=◌, ◌>>◌,
}
use ansuman_gpu_inference_se.RateLimit.Redis.{RedisLike}
use ansuman_gpu_inference_se.RateLimit.Limiter.{redis_call}

unfoldable pub concurrency_key : String → String
concurrency_key api_key_id = "concurrent:api_key:" ++ api_key_id

-- A slot that has been acquired and can be released once.
pub record ConcurrencyLease : Type 0 where
  pub key : String
  pub released : Bool

abbrev pub concurrency_limit_exceeded : AppError
concurrency_limit_exceeded = record {
  message = "Concurrent request limit exceeded";
  code = "concurrency_limit_exceeded";
  status_code = 429;
  type = "rate_limit_error";
  param = none;
}

module _ {W : Type 0} (redis : RedisLike W) (record_redis_failure : W → W) where
  -- The body of the `try` in `release`.
  abbrev give_back : String → Io W (Unit {0})
  give_back key = do
    remaining ← redis.decr key
    if leb_ℤ remaining (pos 0) then (redis.delete (key ∷ []) >> pure tt) else pure tt

  -- `ConcurrencyLease.release`: the lease is an object that the call changes.
  unfoldable pub release : Io (ConcurrencyLease × W) (Unit {0})
  release (l, w) =
      if l.released
      then (ok tt, (l, w))
      else within (record l { released = true }) (try_except (give_back l.key) (λ _. pure tt) w)

  unfoldable pub acquire : String → ℤ → Io W ConcurrencyLease
  acquire api_key_id limit = do
    let key = concurrency_key api_key_id
    count ← redis_call redis record_redis_failure (redis.incr key)
    if ltb_ℤ limit count
        then (do
          try_except (redis.decr key >> pure tt) (λ _. pure tt)
          raise (app concurrency_limit_exceeded))
        else pure (record { key = key; released = false })
