-- ===== src/RateLimit/Quota/Charges.antt =====
-- Reservations of backend/services/rate_limit/quota_reserver.py against the token counter in Redis.
use ansuman_gpu_inference_se.Prelude.{
  ℤ, pos, ◌+ℤ◌, ◌-ℤ◌, ◌≤ℤ◌, ◌<ℤ◌, leb_ℤ, -ℤ_parts, eq_of_parts, int_laws, refl, add_neg_cancel,
  sub_zero, sub_self, add_neg, String, ◌≡◌, ◌⊎◌, Bool, true, false, some, arith, ◌=?◌, eq_refl,
  eq_iff, if◌then◌else◌,
}
use ansuman_gpu_inference_se.Io.{Exc, ok, raised, is_raised}
use ansuman_gpu_inference_se.RateLimit.Redis.{RedisLike, CounterLaws}
use ansuman_gpu_inference_se.RateLimit.Limiter.{tpm_key}
use ansuman_gpu_inference_se.RateLimit.Quota.{
  TokenReservation, Reservation, reservation, finalize, reserve, tpm_window_seconds,
}

-- What a request is charged in the end: what it used, but no more than it reserved.
abbrev pub charge : ℤ → ℤ → Bool → ℤ
charge reserved actual release_all =
    if release_all then pos 0 else if leb_ℤ actual reserved then actual else reserved

charge_nonneg :
    (reserved actual : ℤ) (release_all : Bool)
    → pos 0 ≤ℤ reserved
    → pos 0 ≤ℤ actual
    → pos 0 ≤ℤ charge reserved actual release_all
charge_nonneg reserved actual release_all p u = ground arith

module _ {W : Type 0} (redis : RedisLike W) (record_redis_failure : W → W)
    {counter : W → String → ℤ} (laws : CounterLaws redis counter)
    (uncounted : (w : W) (j : String) → counter (record_redis_failure w) j ≡ counter w j) where
  -- A reservation of a positive estimate is made only within the limit; it adds the estimate to the
  -- counter of its key, and to no other.
  pub reserve_ok :
      (tpm_limit : ℤ) (api_key_id : String) (estimated : ℤ) (w : W) (j : String) {t : Reservation}
      → let key = tpm_key api_key_id in
        let (r, w') = reserve (some redis) record_redis_failure tpm_limit api_key_id estimated w in
        pos 0 <ℤ estimated
        → r ≡ ok t
        → (t ≡ reservation (record { key = key; reserved_tokens = estimated; finalized = false }))
          × (counter w key +ℤ estimated ≤ℤ tpm_limit)
          × (counter w' j ≡ (if key =? j then counter w key +ℤ estimated else counter w j))
  unfolding reserve
  reserve_ok tpm_limit api_key_id estimated w j p h =
      let key = tpm_key api_key_id in
      let w1 = (redis.incrby key estimated w).1 in
      ground (
        arith,
        laws.incrby_reply key estimated w,
        laws.incrby_counter key estimated w j,
        laws.executed_ok key estimated w,
        laws.expire_counter key tpm_window_seconds w1 j,
      )

  -- A reservation that raises leaves every counter as it was, unless Redis failed: then the counter of
  -- its own key may hold the estimate on top, and no other counter is changed.
  pub reserve_raised :
      (tpm_limit : ℤ) (api_key_id : String) (estimated : ℤ) (w : W) (j : String) {e : Exc}
      → let key = tpm_key api_key_id in
        let w1 = (redis.incrby key estimated w).1 in
        let w2 = (redis.expire key tpm_window_seconds w1).1 in
        let (r, w') = reserve (some redis) record_redis_failure tpm_limit api_key_id estimated w in
        r ≡ raised e
        → (counter w' j ≡ counter w j)
          ⊎ (((key =? j) ≡ true)
              × (counter w' j ≡ counter w key +ℤ estimated)
              × ((is_raised (redis.incrby key estimated w).0 ≡ true)
                  ⊎ (is_raised (redis.expire key tpm_window_seconds w1).0 ≡ true)
                  ⊎ ((tpm_limit <ℤ counter w key +ℤ estimated)
                      × ((is_raised (redis.decrby key estimated w1).0 ≡ true)
                          ⊎ (is_raised (redis.decrby key estimated w2).0 ≡ true)))))
  unfolding reserve
  reserve_raised tpm_limit api_key_id estimated w j {e} h =
      let key = tpm_key api_key_id in
      let w1 = (redis.incrby key estimated w).1 in
      let w2 = (redis.expire key tpm_window_seconds w1).1 in
      let back = pos 0 -ℤ estimated in
      ground (
        arith,
        laws.incrby_reply key estimated w,
        laws.executed_ok key estimated w,
        laws.incrby_counter key estimated w j,
        laws.incrby_counter key estimated w key,
        laws.expire_counter key tpm_window_seconds w1 j,
        laws.expire_counter key tpm_window_seconds w1 key,
        laws.decrby_lem key estimated w1,
        laws.decrby_lem key estimated w2,
        laws.executed_ok key back w1,
        laws.executed_ok key back w2,
        laws.incrby_counter key back w1 j,
        laws.incrby_counter key back w2 j,
        uncounted w1 j,
        uncounted w2 j,
        add_neg_cancel (counter w key) estimated,
        eq_refl key,
        eq_iff key j,
      )

  -- One clause for each value of `release_all`.
  finalize_counter :
      (t : TokenReservation) (actual : ℤ) (release_all : Bool) (w : W) (j : String)
      → let back = t.reserved_tokens -ℤ charge t.reserved_tokens actual release_all in
        let (r, (t', w')) = finalize redis actual release_all (reservation t, w) in
        t.finalized ≡ false
        → pos 0 ≤ℤ t.reserved_tokens
        → back ≤ℤ counter w t.key
        → ((n : ℤ) → is_raised (redis.decrby t.key n w).0 ≡ false)
        → counter w' j ≡ (if t.key =? j then counter w t.key -ℤ back else counter w j)
  unfolding finalize
  finalize_counter t actual true w j h p q answered =
      let n = t.reserved_tokens in
      let back = pos 0 -ℤ n in
      let w1 = (redis.incrby t.key back w).1 in
      ground (
        arith,
        answered n,
        laws.decrby_lem t.key n w,
        laws.incrby_reply t.key back w,
        laws.incrby_counter t.key back w j,
        laws.executed_ok t.key back w,
        laws.delete_counter t.key w1 j,
        eq_iff t.key j,
        sub_zero n,
        add_neg (counter w t.key) n,
        sub_zero (counter w t.key),
        -ℤ_parts (counter w t.key) n,
        eq_of_parts (counter w t.key -ℤ n) (pos 0),
        eq_of_parts (counter w t.key -ℤ n) (counter w t.key),
      )
  finalize_counter t actual false w j h p q answered =
      let n = t.reserved_tokens -ℤ actual in
      let back = pos 0 -ℤ n in
      let w1 = (redis.incrby t.key back w).1 in
      ground (
        arith,
        answered n,
        laws.decrby_lem t.key n w,
        laws.incrby_reply t.key back w,
        laws.incrby_counter t.key back w j,
        laws.executed_ok t.key back w,
        laws.delete_counter t.key w1 j,
        eq_iff t.key j,
        add_neg (counter w t.key) n,
        sub_zero (counter w t.key),
        -ℤ_parts (counter w t.key) n,
        -ℤ_parts t.reserved_tokens actual,
        eq_of_parts (counter w t.key -ℤ n) (pos 0),
        eq_of_parts (counter w t.key -ℤ n) (counter w t.key),
        sub_self t.reserved_tokens,
        eq_of_parts actual t.reserved_tokens,
      )

  -- A reservation of a positive estimate that is made and then finalized once, with a DECRBY that
  -- answers and a token counter that was not negative, leaves its request charged with what it used, at
  -- most with what it reserved, and with nothing when all is given back. Other counters are untouched.
  pub finalize-reserve :
      (tpm_limit : ℤ) (api_key_id : String) (estimated actual : ℤ) (release_all : Bool) (w : W)
      (j : String) {t : Reservation}
      → let key = tpm_key api_key_id in
        let (made, w') =
          reserve (some redis) record_redis_failure tpm_limit api_key_id estimated w in
        pos 0 <ℤ estimated
        → pos 0 ≤ℤ actual
        → pos 0 ≤ℤ counter w key
        → made ≡ ok t
        → ((n : ℤ) → is_raised (redis.decrby key n w').0 ≡ false)
        → counter (finalize redis actual release_all (t, w')).1.1 j
          ≡ (if key =? j then counter w key +ℤ charge estimated actual release_all else counter w j)
  finalize-reserve tpm_limit api_key_id estimated actual release_all w j {t} p u q made answered =
      let key = tpm_key api_key_id in
      let w' = (reserve (some redis) record_redis_failure tpm_limit api_key_id estimated w).1 in
      let (t_eq, _, at_j) = reserve_ok tpm_limit api_key_id estimated w j p made in
      let (_, _, at_key) = reserve_ok tpm_limit api_key_id estimated w key p made in
      let held : TokenReservation = record {
        key = key;
        reserved_tokens = estimated;
        finalized = false;
      } in
      let final : counter w' key ≡ counter w key +ℤ estimated =
        ground (arith, at_key, eq_refl key) in
      let c = charge estimated actual release_all in
      let room : estimated -ℤ c ≤ℤ counter w' key =
        rw final (omega (int_laws, charge_nonneg estimated actual release_all (omega arith) u)) in
      let moved : counter w key +ℤ estimated -ℤ (estimated -ℤ c) ≡ counter w key +ℤ c =
        omega int_laws in
      rw t_eq (
        rw (finalize_counter held actual release_all w' j refl (omega arith) room answered)
          (ground (arith, moved, final, at_j)))
