-- ===== src/RateLimit/Quota.antt =====
-- backend/services/rate_limit/quota_reserver.py: tokens per minute, reserved and given back.
pub mod Charges
use ansuman_gpu_inference_se.Prelude.{
  ℤ, pos, ◌-ℤ◌, ltb_ℤ, leb_ℤ, eqb_ℤ, String, Option, none, some, [], ◌∷◌, Bool, true, false,
  if◌then◌else◌,
}
use ansuman_gpu_inference_se.Io.{
  AppError, app, ok, Io, within, pure, raise, try_except, ◌>>=◌, ◌>>◌,
}
use ansuman_gpu_inference_se.RateLimit.Redis.{RedisLike}
use ansuman_gpu_inference_se.RateLimit.Limiter.{redis_call, tpm_key}

abbrev pub tpm_window_seconds : ℤ
tpm_window_seconds = pos 60

-- A reservation that gives back what a request did not use.
pub record TokenReservation : Type 0 where
  pub key : String
  pub reserved_tokens : ℤ
  pub finalized : Bool

-- The two classes of `TokenReservationLike`.
pub data Reservation : Type 0 where
  reservation : TokenReservation → Reservation
  noop : ℤ → Reservation

abbrev pub token_rate_limit_exceeded : AppError
token_rate_limit_exceeded = record {
  message = "Token rate limit exceeded";
  code = "token_rate_limit_exceeded";
  status_code = 429;
  type = "rate_limit_error";
  param = none;
}

abbrev pub max_zero : ℤ → ℤ
max_zero n = if ltb_ℤ n (pos 0) then pos 0 else n

module _ {W : Type 0} (redis : RedisLike W) where
  -- The body of the `try` in `finalize`.
  abbrev give_back_tokens : String → ℤ → Io W (Unit {0})
  give_back_tokens key tokens_to_release = do
    remaining ← redis.decrby key tokens_to_release
    if leb_ℤ remaining (pos 0) then (redis.delete (key ∷ []) >> pure tt) else pure tt

  -- `TokenReservation.finalize`
  finalize_reservation : ℤ → Bool → Io (TokenReservation × W) (Unit {0})
  finalize_reservation actual_tokens release_all (t, w) =
      let tokens_to_release =
        if release_all then t.reserved_tokens else t.reserved_tokens -ℤ actual_tokens in
      let done = record t { finalized = true } in
      if t.finalized
      then (ok tt, (t, w))
      else if leb_ℤ tokens_to_release (pos 0)
      then (ok tt, (done, w))
      else within done (try_except (give_back_tokens t.key tokens_to_release) (λ _. pure tt) w)

  -- `finalize` of either class.
  unfoldable pub finalize : ℤ → Bool → Io (Reservation × W) (Unit {0})
  unfolding finalize_reservation
  finalize actual release_all (reservation t, w) =
      let (r, (t', w')) = finalize_reservation actual release_all (t, w) in
      (r, (reservation t', w'))
  finalize actual release_all (noop n, w) = (ok tt, (noop n, w))

-- `QuotaReserver.reserve`; `redis` is the reserver's `_redis`.
module _ {W : Type 0} (redis : Option (RedisLike W)) (record_redis_failure : W → W)
    (tpm_limit : ℤ) where
  abbrev noop_reservation : ℤ → Io W Reservation
  noop_reservation estimated_tokens = pure (noop (max_zero estimated_tokens))

  abbrev reserve_with : RedisLike W → String → ℤ → Io W Reservation
  reserve_with r api_key_id estimated_tokens = do
    let key = tpm_key api_key_id
    count ← redis_call r record_redis_failure (r.incrby key estimated_tokens)
    if eqb_ℤ count estimated_tokens
        then redis_call r record_redis_failure (r.expire key tpm_window_seconds)
        else pure tt
    if ltb_ℤ tpm_limit count
        then (do
          try_except (r.decrby key estimated_tokens >> pure tt) (λ _. pure tt)
          raise (app token_rate_limit_exceeded))
        else pure (
            reservation
              (record { key = key; reserved_tokens = estimated_tokens; finalized = false }))

  abbrev reserve_on : Option (RedisLike W) → String → ℤ → Io W Reservation
  reserve_on none api_key_id estimated_tokens = noop_reservation estimated_tokens
  reserve_on (some r) api_key_id estimated_tokens =
      if leb_ℤ estimated_tokens (pos 0)
      then noop_reservation estimated_tokens
      else reserve_with r api_key_id estimated_tokens

  unfoldable pub reserve : String → ℤ → Io W Reservation
  reserve = reserve_on redis
