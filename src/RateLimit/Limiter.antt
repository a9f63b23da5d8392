-- ===== src/RateLimit/Limiter.antt =====
-- backend/services/rate_limit/rate_limiter.py: the overload gate and the requests per minute.
use Prim.Native.String.{◌++◌}
use ansuman_gpu_inference_se.Prelude.{
  ℤ, pos, ltb_ℤ, eqb_ℤ, String, Option, none, some, [], ◌∷◌, Bool, false, not, if◌then◌else◌,
}
use ansuman_gpu_inference_se.Text.{codes, lower, text_in}
use ansuman_gpu_inference_se.Io.{
  AppError, Exc, app, error, cancelled, Io, pure, raise, handle, ◌>>=◌, ◌>>◌,
}
use ansuman_gpu_inference_se.RateLimit.Redis.{RedisLike}

abbrev pub rpm_window_seconds : ℤ
rpm_window_seconds = pos 60

unfoldable pub rpm_key : String → String
rpm_key api_key_id = "rl:api_key:" ++ (api_key_id ++ ":rpm")

unfoldable pub tpm_key : String → String
tpm_key api_key_id = "rl:api_key:" ++ (api_key_id ++ ":tpm")

abbrev pub overload_key : String
overload_key = "overload:global"

abbrev pub dependency_unavailable : AppError
dependency_unavailable = record {
  message = "Redis dependency is unavailable";
  code = "dependency_unavailable";
  status_code = 503;
  type = "server_error";
  param = none;
}

abbrev pub server_overloaded : AppError
server_overloaded = record {
  message = "Server is overloaded";
  code = "server_overloaded";
  status_code = 503;
  type = "server_error";
  param = none;
}

abbrev pub rate_limit_exceeded : AppError
rate_limit_exceeded = record {
  message = "Rate limit exceeded";
  code = "rate_limit_exceeded";
  status_code = 429;
  type = "rate_limit_error";
  param = none;
}

-- A stored flag that is set: `str(value).lower() not in {"", "0", "false", "none"}`.
unfoldable pub is_overloaded : Option String → Bool
unfolding lower
is_overloaded none = false
is_overloaded (some value) =
    not (text_in (lower (codes value)) (codes "" ∷ codes "0" ∷ codes "false" ∷ codes "none" ∷ []))

module _ {W : Type 0} (redis : RedisLike W) (record_redis_failure : W → W) where
  abbrev redis_failed : {A : Type 0} → Exc → Io W A
  redis_failed (app e) w = raise (app e) w
  redis_failed (error s) w = raise (app dependency_unavailable) (record_redis_failure w)
  redis_failed cancelled w = raise cancelled w

  -- `_redis_call`
  abbrev pub redis_call : {A : Type 0} → Io W A → Io W A
  redis_call awaitable = handle awaitable redis_failed

  unfoldable pub check_overload : Io W (Unit {0})
  check_overload = do
    value ← redis_call (redis.get overload_key)
    if is_overloaded value then raise (app server_overloaded) else pure tt

  unfoldable pub check_rpm : String → ℤ → Io W (Unit {0})
  check_rpm api_key_id limit = do
    let key = rpm_key api_key_id
    count ← redis_call (redis.incr key)
    if eqb_ℤ count (pos 1) then redis_call (redis.expire key rpm_window_seconds) else pure tt
    if ltb_ℤ limit count then raise (app rate_limit_exceeded) else pure tt
