-- ===== src/RateLimit/Admission/Checks.antt =====
-- What `AdmissionService.admit` (backend/services/rate_limit/admission.py) enforces and leaves behind.
use ansuman_gpu_inference_se.Prelude.{
  inl, inr, ℤ, pos, ◌+ℤ◌, ◌-ℤ◌, ◌≤ℤ◌, ◌<ℤ◌, String, ◌≡◌, true, false, some, Option, arith, ◌=?◌,
  eq_refl, eq_iff, if◌then◌else◌,
}
use ansuman_gpu_inference_se.Io.{Exc, app, ok, raised, Result-cases}
use ansuman_gpu_inference_se.RateLimit.Redis.{RedisLike, CounterLaws}
use ansuman_gpu_inference_se.RateLimit.Limiter.{
  rpm_key, tpm_key, overload_key, server_overloaded, is_overloaded, rpm_window_seconds,
  check_overload, check_rpm,
}
use ansuman_gpu_inference_se.RateLimit.Concurrency.{ConcurrencyLease, concurrency_key, acquire}
use ansuman_gpu_inference_se.RateLimit.Concurrency.Slots.{acquire_ok}
use ansuman_gpu_inference_se.RateLimit.Quota.{reservation, tpm_window_seconds, reserve}
use ansuman_gpu_inference_se.RateLimit.Quota.Charges.{reserve_ok}
use ansuman_gpu_inference_se.RateLimit.Keys.{keys_apart}
use ansuman_gpu_inference_se.RateLimit.Admission.{AdmissionLease, slot, admit}

module _ {W : Type 0} (redis : RedisLike W) (record_redis_failure : W → W)
    {counter : W → String → ℤ} (laws : CounterLaws redis counter)
    (uncounted : (w : W) (j : String) → counter (record_redis_failure w) j ≡ counter w j) where
  check_overload_counter :
      (w : W) (j : String) → counter (check_overload redis record_redis_failure w).1 j ≡ counter w j
  unfolding check_overload
  check_overload_counter w j =
      ground (arith, laws.get_counter overload_key w j, uncounted (redis.get overload_key w).1 j)

  check_rpm_ok :
      (api_key_id : String) (limit : ℤ) (w : W) (j : String)
      → let key = rpm_key api_key_id in
        let (r, w') = check_rpm redis record_redis_failure api_key_id limit w in
        r ≡ ok tt
        → (counter w key +ℤ pos 1 ≤ℤ limit)
          × (counter w' j ≡ (if key =? j then counter w key +ℤ pos 1 else counter w j))
  unfolding check_rpm
  check_rpm_ok api_key_id limit w j h =
      let key = rpm_key api_key_id in
      let w1 = (redis.incrby key (pos 1) w).1 in
      ground (
        arith,
        laws.incr_lem key w,
        laws.incrby_reply key (pos 1) w,
        laws.incrby_counter key (pos 1) w j,
        laws.executed_ok key (pos 1) w,
        laws.expire_counter key rpm_window_seconds w1 j,
      )

  reserve_other :
      (tpm_limit : ℤ) (api_key_id : String) (estimated : ℤ) (w : W) (j : String)
      → (tpm_key api_key_id =? j) ≡ false
      → counter (reserve (some redis) record_redis_failure tpm_limit api_key_id estimated w).1 j
        ≡ counter w j
  unfolding reserve
  reserve_other tpm_limit api_key_id estimated w j h =
      let key = tpm_key api_key_id in
      let w1 = (redis.incrby key estimated w).1 in
      let w2 = (redis.expire key tpm_window_seconds w1).1 in
      let back = pos 0 -ℤ estimated in
      ground (
        arith,
        laws.incrby_counter key estimated w j,
        laws.expire_counter key tpm_window_seconds w1 j,
        laws.decrby_lem key estimated w1,
        laws.decrby_lem key estimated w2,
        laws.incrby_counter key back w1 j,
        laws.incrby_counter key back w2 j,
        uncounted w1 j,
        uncounted w2 j,
      )

  -- While the overload flag is set, every request is refused by the GET alone: no counter is read or
  -- changed.
  pub admit_overloaded :
      (rpm_limit concurrent_limit tpm_limit : ℤ) (api_key_id : String) (estimated : ℤ) (w : W)
      (flag : Option String)
      → (redis.get overload_key w).0 ≡ ok flag
      → is_overloaded flag ≡ true
      → let (r, w') =
          admit redis
            (some redis)
            record_redis_failure
            rpm_limit
            concurrent_limit
            tpm_limit
            api_key_id
            estimated
            w in
        (r ≡ raised (app server_overloaded)) × ((j : String) → counter w' j ≡ counter w j)
  unfolding admit check_overload
  admit_overloaded rpm_limit concurrent_limit tpm_limit api_key_id estimated w flag e set =
      (ground arith, λ j. ground (arith, laws.get_counter overload_key w j))

  module _ (rpm_limit concurrent_limit tpm_limit : ℤ) (api_key_id : String) (estimated : ℤ)
      (w : W) where
    -- The worlds between the four checks.
    abbrev w1 : W
    w1 = (check_overload redis record_redis_failure w).1

    abbrev w2 : W
    w2 = (check_rpm redis record_redis_failure api_key_id rpm_limit w1).1

    abbrev w3 : W
    w3 = (acquire redis record_redis_failure api_key_id concurrent_limit w2).1

    admit_at :
        (j : String) {l : AdmissionLease}
        → let (r, w') =
            admit redis
              (some redis)
              record_redis_failure
              rpm_limit
              concurrent_limit
              tpm_limit
              api_key_id
              estimated
              w in
          let rpm = rpm_key api_key_id in
          let slots = concurrency_key api_key_id in
          let tpm = tpm_key api_key_id in
          pos 0 <ℤ estimated
          → r ≡ ok l
          → (l ≡ record {
            concurrency = slot (record { key = slots; released = false });
            token_reservation =
                reservation (record { key = tpm; reserved_tokens = estimated; finalized = false });
          })
            × (counter w1 rpm +ℤ pos 1 ≤ℤ rpm_limit)
            × (counter w2 slots +ℤ pos 1 ≤ℤ concurrent_limit)
            × (counter w3 tpm +ℤ estimated ≤ℤ tpm_limit)
            × (counter w2 j ≡ (if rpm =? j then counter w1 rpm +ℤ pos 1 else counter w1 j))
            × (counter w3 j ≡ (if slots =? j then counter w2 slots +ℤ pos 1 else counter w2 j))
            × (counter w' j ≡ (if tpm =? j then counter w3 tpm +ℤ estimated else counter w3 j))
    unfolding admit
    admit_at j {l} p h =
        elim (Result-cases (acquire redis record_redis_failure api_key_id concurrent_limit w2).0) [
          | inr (e, failed) ↦ ground arith
          | inl (c, taken) ↦
              elim (Result-cases
                (reserve (some redis) record_redis_failure tpm_limit api_key_id estimated w3).0) [
                  | inr (e, failed) ↦ ground arith
                  | inl (t, made) ↦ ground (
                    arith,
                    check_rpm_ok api_key_id rpm_limit w1 j,
                    acquire_ok redis record_redis_failure laws uncounted api_key_id concurrent_limit
                        w2 j taken,
                    reserve_ok redis record_redis_failure laws uncounted tpm_limit api_key_id
                        estimated w3 j p made,
                  )
                ]
        ]

    -- Where all three checks share one Redis client, a request that is admitted is within the three
    -- limits; it is counted once against the requests per minute, holds one slot and has its estimate
    -- reserved.
    pub admit_ok :
        {l : AdmissionLease}
        → let (r, w') =
            admit redis
              (some redis)
              record_redis_failure
              rpm_limit
              concurrent_limit
              tpm_limit
              api_key_id
              estimated
              w in
          let rpm = rpm_key api_key_id in
          let slots = concurrency_key api_key_id in
          let tpm = tpm_key api_key_id in
          pos 0 <ℤ estimated
          → r ≡ ok l
          → (l ≡ record {
            concurrency = slot (record { key = slots; released = false });
            token_reservation =
                reservation (record { key = tpm; reserved_tokens = estimated; finalized = false });
          })
            × (counter w rpm +ℤ pos 1 ≤ℤ rpm_limit)
            × (counter w slots +ℤ pos 1 ≤ℤ concurrent_limit)
            × (counter w tpm +ℤ estimated ≤ℤ tpm_limit)
            × (counter w' rpm ≡ counter w rpm +ℤ pos 1)
            × (counter w' slots ≡ counter w slots +ℤ pos 1)
            × (counter w' tpm ≡ counter w tpm +ℤ estimated)
    admit_ok {l} p h =
        let rpm = rpm_key api_key_id in
        let slots = concurrency_key api_key_id in
        let tpm = tpm_key api_key_id in
        ground (
          arith,
          admit_at rpm p h,
          admit_at slots p h,
          admit_at tpm p h,
          keys_apart api_key_id api_key_id,
          check_overload_counter w rpm,
          check_overload_counter w slots,
          check_overload_counter w tpm,
          eq_refl rpm,
          eq_refl slots,
          eq_refl tpm,
          eq_iff slots rpm,
          eq_iff rpm slots,
          eq_iff tpm rpm,
          eq_iff rpm tpm,
          eq_iff slots tpm,
          eq_iff tpm slots,
        )

    -- Where all three checks share one Redis client, and the token check refuses or fails behind an
    -- acquired slot, the request is refused, and its
    -- slot stays counted: no lease is left that could release it.
    pub admit_leaks_slot :
        {c : ConcurrencyLease} {e : Exc}
        → let (r, w') =
            admit redis
              (some redis)
              record_redis_failure
              rpm_limit
              concurrent_limit
              tpm_limit
              api_key_id
              estimated
              w in
          let slots = concurrency_key api_key_id in
          (check_overload redis record_redis_failure w).0 ≡ ok tt
          → (check_rpm redis record_redis_failure api_key_id rpm_limit w1).0 ≡ ok tt
          → (acquire redis record_redis_failure api_key_id concurrent_limit w2).0 ≡ ok c
          → (reserve (some redis) record_redis_failure tpm_limit api_key_id estimated w3).0
            ≡ raised e
          → (r ≡ raised e) × (counter w' slots ≡ counter w slots +ℤ pos 1)
    unfolding admit
    admit_leaks_slot free asked taken refused =
        let slots = concurrency_key api_key_id in
        ground (
          arith,
          check_rpm_ok api_key_id rpm_limit w1 slots asked,
          acquire_ok redis record_redis_failure laws uncounted api_key_id concurrent_limit w2 slots
              taken,
          reserve_other tpm_limit api_key_id estimated w3 slots,
          check_overload_counter w slots,
          keys_apart api_key_id api_key_id,
          eq_refl slots,
        )
