-- ===== src/RateLimit/Admission.antt =====
-- backend/services/rate_limit/admission.py: the checks in order, and the lease that they give.
pub mod Checks
use ansuman_gpu_inference_se.Prelude.{ℤ, String, Bool, Option, none}
use ansuman_gpu_inference_se.Io.{ok, Io, ◌>>=◌, ◌>>◌, pure}
use ansuman_gpu_inference_se.RateLimit.Redis.{RedisLike}
use ansuman_gpu_inference_se.RateLimit.Limiter.{check_overload, check_rpm}
use ansuman_gpu_inference_se.RateLimit.Concurrency.{ConcurrencyLease, acquire}
use ansuman_gpu_inference_se.RateLimit.Concurrency
use ansuman_gpu_inference_se.RateLimit.Quota.{Reservation, finalize, reserve}

-- The two classes of `Releasable`.
pub data Releasable : Type 0 where
  slot : ConcurrencyLease → Releasable
  noop_slot : Releasable

pub record AdmissionLease : Type 0 where
  pub concurrency : Releasable
  pub token_reservation : Reservation

module _ {W : Type 0} (redis : RedisLike W) (record_redis_failure : W → W) where
  release_slot : Io (Releasable × W) (Unit {0})
  release_slot (slot l, w) =
      let (r, (l', w')) = Concurrency.release redis record_redis_failure (l, w) in
      (r, (slot l', w'))
  release_slot (noop_slot, w) = (ok tt, (noop_slot, w))

  -- `AdmissionLease.release`
  unfoldable pub release : Io (AdmissionLease × W) (Unit {0})
  unfolding release_slot
  release (l, w) =
      let (r, (c, w')) = release_slot (l.concurrency, w) in (r, (record l { concurrency = c }, w'))

  -- `AdmissionLease.finalize_tokens`
  unfoldable pub finalize_tokens : ℤ → Bool → Io (AdmissionLease × W) (Unit {0})
  finalize_tokens actual_tokens release_all (l, w) =
      let (r, (t, w')) = finalize redis actual_tokens release_all (l.token_reservation, w) in
      (r, (record l { token_reservation = t }, w'))

-- `AdmissionService.admit`, of the context only the key's id is read; `quota_redis` is the client of the
-- quota reserver, if it has one.
module _ {W : Type 0} (redis : RedisLike W) (quota_redis : Option (RedisLike W))
    (record_redis_failure : W → W) (rpm_limit concurrent_request_limit tpm_limit : ℤ) where
  unfoldable pub admit : String → ℤ → Io W AdmissionLease
  admit api_key_id estimated_tokens = do
    check_overload redis record_redis_failure
    check_rpm redis record_redis_failure api_key_id rpm_limit
    concurrency ← acquire redis record_redis_failure api_key_id concurrent_request_limit
    token_reservation ←
        reserve quota_redis record_redis_failure tpm_limit api_key_id estimated_tokens
    pure (record { concurrency = slot concurrency; token_reservation = token_reservation })

-- `NoopAdmissionService.admit`
unfoldable pub noop_admit : {W : Type 0} → (W → W) → ℤ → String → ℤ → Io W AdmissionLease
noop_admit record_redis_failure tpm_limit api_key_id estimated_tokens = do
  token_reservation ← reserve none record_redis_failure tpm_limit api_key_id estimated_tokens
  pure (record { concurrency = noop_slot; token_reservation = token_reservation })
