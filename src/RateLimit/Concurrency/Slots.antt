-- ===== src/RateLimit/Concurrency/Slots.antt =====
-- Slots of backend/services/rate_limit/concurrency_limiter.py against the counter in Redis.
use ansuman_gpu_inference_se.Prelude.{
  ℤ, pos, negsuc, ◌+ℤ◌, ◌≤ℤ◌, ◌<ℤ◌, +ℤ_parts, eq_of_parts, add_one_cancel, String, ◌≡◌, ◌⊎◌, true,
  false, arith, ◌=?◌, eq_refl, eq_iff, if◌then◌else◌,
}
use ansuman_gpu_inference_se.Io.{Exc, ok, raised, is_raised}
use ansuman_gpu_inference_se.RateLimit.Redis.{RedisLike, CounterLaws}
use ansuman_gpu_inference_se.RateLimit.Concurrency.{
  ConcurrencyLease, concurrency_key, acquire, release,
}

module _ {W : Type 0} (redis : RedisLike W) (record_redis_failure : W → W)
    {counter : W → String → ℤ} (laws : CounterLaws redis counter)
    (uncounted : (w : W) (j : String) → counter (record_redis_failure w) j ≡ counter w j) where
  -- A lease is handed out only within the limit, unreleased, and its counter has gone up by one;
  -- every other counter is as before.
  pub acquire_ok :
      (api_key_id : String) (limit : ℤ) (w : W) (j : String) {l : ConcurrencyLease}
      → let key = concurrency_key api_key_id in
        let (r, w') = acquire redis record_redis_failure api_key_id limit w in
        r ≡ ok l
        → (l ≡ record { key = key; released = false })
          × (counter w key +ℤ pos 1 ≤ℤ limit)
          × (counter w' j ≡ (if key =? j then counter w key +ℤ pos 1 else counter w j))
  unfolding acquire
  acquire_ok api_key_id limit w j h =
      let key = concurrency_key api_key_id in
      ground (
        arith,
        laws.incr_lem key w,
        laws.incrby_reply key (pos 1) w,
        laws.incrby_counter key (pos 1) w j,
        laws.executed_ok key (pos 1) w,
      )

  -- A refused or failed acquisition leaves every counter as it was, unless Redis failed: the INCR, and
  -- then the slot may be counted or not, or, with the limit passed, the DECR that rolls back.
  pub acquire_raised :
      (api_key_id : String) (limit : ℤ) (w : W) (j : String) (e : Exc)
      → let key = concurrency_key api_key_id in
        let (r, w') = acquire redis record_redis_failure api_key_id limit w in
        r ≡ raised e
        → (counter w' j ≡ counter w j)
          ⊎ (((key =? j) ≡ true)
              × (counter w' j ≡ counter w key +ℤ pos 1)
              × ((is_raised (redis.incr key w).0 ≡ true)
                  ⊎ ((limit <ℤ counter w key +ℤ pos 1)
                      × (is_raised (redis.decr key (redis.incr key w).1).0 ≡ true))))
  unfolding acquire
  acquire_raised api_key_id limit w j e h =
      let key = concurrency_key api_key_id in
      let w1 = (redis.incrby key (pos 1) w).1 in
      ground (
        arith,
        laws.incr_lem key w,
        laws.incrby_reply key (pos 1) w,
        laws.executed_ok key (pos 1) w,
        laws.incrby_counter key (pos 1) w j,
        laws.incrby_counter key (pos 1) w key,
        uncounted w1 j,
        laws.decr_lem key w1,
        laws.executed_ok key (negsuc 0) w1,
        laws.incrby_counter key (negsuc 0) w1 j,
        add_one_cancel (counter w key),
        eq_refl key,
        eq_iff key j,
      )

  -- A slot that was acquired and is released by a DECR that answers: what is left of the counter.
  pub release_gives_back :
      (l : ConcurrencyLease) (w : W) (j : String)
      → l.released ≡ false
      → pos 1 ≤ℤ counter w l.key
      → is_raised (redis.decr l.key w).0 ≡ false
      → let (r, (l', w')) = release redis record_redis_failure (l, w) in
        (l'.released ≡ true)
        × (l'.key ≡ l.key)
        × (counter w' j ≡ (if l.key =? j then counter w l.key +ℤ negsuc 0 else counter w j))
  unfolding release
  release_gives_back l w j h p answered =
      let w1 = (redis.incrby l.key (negsuc 0) w).1 in
      ground (
        arith,
        laws.decr_lem l.key w,
        laws.incrby_reply l.key (negsuc 0) w,
        laws.executed_ok l.key (negsuc 0) w,
        laws.incrby_counter l.key (negsuc 0) w j,
        laws.delete_counter l.key w1 j,
        eq_iff l.key j,
        +ℤ_parts (counter w l.key) (negsuc 0),
        eq_of_parts (counter w l.key +ℤ negsuc 0) (pos 0),
      )

  -- A lease that is taken and released, both by commands that the server executes, leaves every
  -- counter as it was before.
  pub release-acquire :
      (api_key_id : String) (limit : ℤ) (w : W) (j : String) {l : ConcurrencyLease}
      → let (taken, w') = acquire redis record_redis_failure api_key_id limit w in
        pos 0 ≤ℤ counter w (concurrency_key api_key_id)
        → taken ≡ ok l
        → is_raised (redis.decr l.key w').0 ≡ false
        → counter (release redis record_redis_failure (l, w')).1.1 j ≡ counter w j
  release-acquire api_key_id limit w j {l} p taken answered =
      let key = concurrency_key api_key_id in
      let w' = (acquire redis record_redis_failure api_key_id limit w).1 in
      let (l_eq, _, at_j) = acquire_ok api_key_id limit w j taken in
      let (_, _, at_key) = acquire_ok api_key_id limit w key taken in
      ground (
        arith,
        l_eq,
        at_j,
        at_key,
        eq_refl key,
        eq_iff key j,
        add_one_cancel (counter w key),
        +ℤ_parts (counter w key) (pos 1),
        release_gives_back l w' j,
      )

  -- Releasing a lease again neither raises nor changes anything.
  pub release-release :
      (l : ConcurrencyLease) (w : W)
      → let (r, (l', w')) = release redis record_redis_failure (l, w) in
        release redis record_redis_failure (l', w') ≡ (ok tt, (l', w'))
  unfolding release
  release-release l w = ground arith
