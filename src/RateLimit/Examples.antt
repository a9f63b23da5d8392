-- ===== src/RateLimit/Examples.antt =====
-- Runs of the admission checks against the Redis for tests, and the theorems at those inputs.
use ansuman_gpu_inference_se.Prelude.{
  pos, ◌+ℤ◌, ◌-ℤ◌, ◌≤ℤ◌, ◌<ℤ◌, String, ◌≡◌, refl, ◌⊎◌, true, false, some, [], ◌∷◌, arith, ◌=?◌,
  if◌then◌else◌,
}
use ansuman_gpu_inference_se.Io.{app, ok, raised, is_raised}
use ansuman_gpu_inference_se.RateLimit.Limiter.{
  rpm_key, tpm_key, server_overloaded, is_overloaded, check_overload, check_rpm,
}
use ansuman_gpu_inference_se.RateLimit.Concurrency.{
  ConcurrencyLease, concurrency_key, concurrency_limit_exceeded, acquire, release,
}
use ansuman_gpu_inference_se.RateLimit.Concurrency.Slots.{
  acquire_ok, acquire_raised, release-acquire, release-release,
}
use ansuman_gpu_inference_se.RateLimit.Concurrency.Race.{
  Slots, Reach, CalmReach, calm_start, calm_next, IsCounted, CalmReach-IsCounted, Reach-over_limit,
  take_slot, step,
}
use ansuman_gpu_inference_se.RateLimit.Quota.{
  TokenReservation, reservation, token_rate_limit_exceeded, finalize, reserve,
}
use ansuman_gpu_inference_se.RateLimit.Quota.Charges.{charge, reserve_ok, finalize-reserve}
use ansuman_gpu_inference_se.RateLimit.Keys.{keys_apart}
use ansuman_gpu_inference_se.RateLimit.Admission.{AdmissionLease, slot, admit}
use ansuman_gpu_inference_se.RateLimit.Admission.Checks.{
  admit_overloaded, admit_ok, admit_leaks_slot,
}
use ansuman_gpu_inference_se.RateLimit.Fake.{Fake, fake, fake_laws, counter, incrby, get, expire}

abbrev quiet : Fake → Fake
quiet w = w

abbrev idle : Fake
idle = record { values = []; texts = []; fail = false }

abbrev overloaded : Fake
overloaded = record { values = []; texts = ("overload:global", "True") ∷ []; fail = false }

abbrev lease : ConcurrencyLease
lease = record { key = "concurrent:api_key:k"; released = false }

abbrev held : TokenReservation
held = record { key = "rl:api_key:k:tpm"; reserved_tokens = pos 30; finalized = false }

acquire_ok_example :
    (lease ≡ record { key = concurrency_key "k"; released = false })
    × (counter idle (concurrency_key "k") +ℤ pos 1 ≤ℤ pos 2)
    × (counter (acquire fake quiet "k" (pos 2) idle).1 "other" ≡ (
        if concurrency_key "k" =? "other"
        then counter idle (concurrency_key "k") +ℤ pos 1
        else counter idle "other"))
unfolding acquire concurrency_key incrby ◌+ℤ◌
acquire_ok_example =
    acquire_ok fake quiet fake_laws (λ w j. refl) "k" (pos 2) idle "other" {l = lease} refl

acquire_raised_example :
    let key = concurrency_key "k" in
    let w' = (acquire fake quiet "k" (pos 0) idle).1 in
    (counter w' key ≡ counter idle key)
    ⊎ (((key =? key) ≡ true)
        × (counter w' key ≡ counter idle key +ℤ pos 1)
        × ((is_raised (fake.incr key idle).0 ≡ true)
            ⊎ ((pos 0 <ℤ counter idle key +ℤ pos 1)
                × (is_raised (fake.decr key (fake.incr key idle).1).0 ≡ true))))
unfolding acquire concurrency_key incrby ◌+ℤ◌
acquire_raised_example =
    acquire_raised fake quiet fake_laws (λ w j. refl) "k" (pos 0) idle (concurrency_key "k")
      (app concurrency_limit_exceeded) refl

release-acquire_example :
    counter
      (release fake quiet (lease, (acquire fake quiet "k" (pos 2) idle).1)).1.1
      "concurrent:api_key:k"
    ≡ counter idle "concurrent:api_key:k"
unfolding acquire concurrency_key incrby ◌+ℤ◌ counter
release-acquire_example =
    release-acquire fake quiet fake_laws (λ w j. refl) "k" (pos 2) idle "concurrent:api_key:k"
      {l = lease} (omega arith) refl refl

release-release_example :
    let (r, (l', w')) = release fake quiet (lease, idle) in
    release fake quiet (l', w') ≡ (ok tt, (l', w'))
release-release_example = release-release fake quiet fake_laws (λ w j. refl) lease idle

one_request : CalmReach (pos 1) (record { counter = pos 1; rolling = 0; dropping = 0; holding = 1 })
unfolding step ◌+ℤ◌
one_request = calm_next calm_start take_slot (λ _. refl) refl

CalmReach-IsCounted_example :
    IsCounted (pos 1) (record { counter = pos 1; rolling = 0; dropping = 0; holding = 1 })
CalmReach-IsCounted_example = CalmReach-IsCounted (omega arith) one_request

Reach-over_limit_example : (s : Slots) × Reach (pos 4) s × (s.holding ≡ 5)
Reach-over_limit_example = Reach-over_limit 3

reserve_ok_example :
    (reservation held
      ≡ reservation (record { key = tpm_key "k"; reserved_tokens = pos 30; finalized = false }))
    × (counter idle (tpm_key "k") +ℤ pos 30 ≤ℤ pos 100)
    × (counter (reserve (some fake) quiet (pos 100) "k" (pos 30) idle).1 "other" ≡ (
        if tpm_key "k" =? "other"
        then counter idle (tpm_key "k") +ℤ pos 30
        else counter idle "other"))
unfolding reserve tpm_key incrby expire ◌+ℤ◌
reserve_ok_example =
    reserve_ok fake quiet fake_laws (λ w j. refl) (pos 100) "k" (pos 30) idle "other"
      {t = reservation held} (omega arith) refl

finalize-reserve_example :
    counter
      (finalize fake
        (pos 12)
        false
        (reservation held, (reserve (some fake) quiet (pos 100) "k" (pos 30) idle).1)).1.1
      (tpm_key "k")
    ≡ (if tpm_key "k" =? tpm_key "k"
        then counter idle (tpm_key "k") +ℤ charge (pos 30) (pos 12) false
        else counter idle (tpm_key "k"))
unfolding reserve tpm_key incrby expire ◌+ℤ◌ counter
finalize-reserve_example =
    finalize-reserve fake quiet fake_laws (λ w j. refl) (pos 100) "k" (pos 30) (pos 12) false idle
      (tpm_key "k") {t = reservation held} (omega arith) (omega arith) (omega arith) refl
      (λ n. refl)

keys_apart_example :
    ((rpm_key "a" =? concurrency_key "b") ≡ false)
    × ((tpm_key "a" =? concurrency_key "b") ≡ false)
    × ((rpm_key "a" =? tpm_key "b") ≡ false)
    × (rpm_key "a" ≡ rpm_key "b" → ◌≡◌ {A = String} "a" "b")
    × (tpm_key "a" ≡ tpm_key "b" → ◌≡◌ {A = String} "a" "b")
    × (concurrency_key "a" ≡ concurrency_key "b" → ◌≡◌ {A = String} "a" "b")
keys_apart_example = keys_apart "a" "b"

admit_overloaded_example :
    let (r, w') = admit fake (some fake) quiet (pos 60) (pos 4) (pos 100) "k" (pos 30) overloaded in
    (r ≡ raised (app server_overloaded)) × ((j : String) → counter w' j ≡ counter overloaded j)
unfolding get is_overloaded
admit_overloaded_example =
    admit_overloaded fake quiet fake_laws (λ w j. refl) (pos 60) (pos 4) (pos 100) "k" (pos 30)
      overloaded (some "True") refl refl

abbrev granted : AdmissionLease
granted = record { concurrency = slot lease; token_reservation = reservation held }

admit_ok_example :
    let w' = (admit fake (some fake) quiet (pos 60) (pos 4) (pos 100) "k" (pos 30) idle).1 in
    (granted ≡ record {
      concurrency = slot (record { key = concurrency_key "k"; released = false });
      token_reservation =
          reservation (record { key = tpm_key "k"; reserved_tokens = pos 30; finalized = false });
    })
    × (counter idle (rpm_key "k") +ℤ pos 1 ≤ℤ pos 60)
    × (counter idle (concurrency_key "k") +ℤ pos 1 ≤ℤ pos 4)
    × (counter idle (tpm_key "k") +ℤ pos 30 ≤ℤ pos 100)
    × (counter w' (rpm_key "k") ≡ counter idle (rpm_key "k") +ℤ pos 1)
    × (counter w' (concurrency_key "k") ≡ counter idle (concurrency_key "k") +ℤ pos 1)
    × (counter w' (tpm_key "k") ≡ counter idle (tpm_key "k") +ℤ pos 30)
unfolding admit check_overload check_rpm acquire reserve rpm_key tpm_key concurrency_key incrby get
    expire is_overloaded ◌+ℤ◌
admit_ok_example =
    admit_ok fake quiet fake_laws (λ w j. refl) (pos 60) (pos 4) (pos 100) "k" (pos 30) idle
      {l = granted} (omega arith) refl

-- A request for 30 tokens at a limit of 20: refused, and its slot is not given back.
admit_leaks_slot_example :
    let (r, w') = admit fake (some fake) quiet (pos 60) (pos 4) (pos 20) "k" (pos 30) idle in
    (r ≡ raised (app token_rate_limit_exceeded))
    × (counter w' (concurrency_key "k") ≡ counter idle (concurrency_key "k") +ℤ pos 1)
unfolding check_overload check_rpm acquire reserve rpm_key tpm_key concurrency_key incrby get expire
    is_overloaded ◌+ℤ◌ ◌-ℤ◌
admit_leaks_slot_example =
    admit_leaks_slot fake quiet fake_laws (λ w j. refl) (pos 60) (pos 4) (pos 20) "k" (pos 30) idle
      {c = lease} {e = app token_rate_limit_exceeded} refl refl refl refl
