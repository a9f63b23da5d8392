-- ===== src/Vllm/Runtime/Ready.antt =====
-- When and how `wait_for_vllm_ready` of backend/services/vllm/runtime.py ends.
use ansuman_gpu_inference_se.Prelude.{
  ℕ, zero, suc, ◌+◌, ◌-◌, ◌≤◌, ◌<◌, Bool, true, false, Option, some, ◌≡◌, refl, ap, ◌⊎◌, inl, inr,
  arith, ltb, Bool-cases,
}
use ansuman_gpu_inference_se.Io.{app, error, cancelled, Result, ok, raised, Io}
use ansuman_gpu_inference_se.Vllm.Runtime.{
  vllm_not_ready, is_success, answered, turn, poll, wait_for_vllm_ready,
}

-- A sleep takes at least one unit of the clock, and a request does not set it back.
pub record ClockLaws {W : Type 0} (get : Io W ℕ) (sleep : Io W (Unit {0})) (monotonic : W → ℕ)
    : Type 0 where
  pub get_lem : (w : W) → monotonic w ≤ monotonic (get w).1
  pub sleep_lem : (w : W) → monotonic w < monotonic (sleep w).1

module _ {W : Type 0} (get : Io W ℕ) (sleep : Io W (Unit {0})) (monotonic : W → ℕ) where
  -- How a wait until `deadline` may end: the last answer was a success, the deadline has passed, or
  -- it was cancelled in the request or in the sleep behind it.
  abbrev pub EndsAt : ℕ → Result (Unit {0}) → W → Type 0
  EndsAt deadline (ok _) w =
      (v : W) × (s : ℕ) × (get v ≡ (ok s, w)) × (is_success s ≡ true) × (monotonic v < deadline)
  EndsAt deadline (raised e) w =
      ((e ≡ app vllm_not_ready) × (deadline ≤ monotonic w))
      ⊎ ((v : W) × (((get v).0 ≡ raised cancelled) × (e ≡ cancelled) ⊎ (sleep v ≡ (raised e, w))))

  abbrev pub Ends : ℕ → Option (Result (Unit {0}) × W) → Type 0
  Ends deadline o = (r : Result (Unit {0})) × (w' : W) × (o ≡ some (r, w')) × EndsAt deadline r w'

  -- One turn, whose request and sleep are known, in front of a loop that ends.
  turn-Ends :
      (deadline : ℕ) (w : W) (rest : Option (Result (Unit {0}) × W))
      → monotonic w < deadline
      → Ends deadline rest
      → (r : Result ℕ) → (get w).0 ≡ r
      → (slept : Result (Unit {0})) → (sleep (get w).1).0 ≡ slept
      → Ends deadline (
          turn get sleep monotonic
            (answered get sleep monotonic r)
            (get w).1
            (slept, (sleep (get w).1).1)
            rest)
  turn-Ends deadline w rest early ends (ok s) e slept f = after_status (is_success s) refl slept f
    where
      after_status :
          (b : Bool)
          → is_success s ≡ b
          → (slept : Result (Unit {0})) → (sleep (get w).1).0 ≡ slept
          → Ends deadline
              (turn get sleep monotonic (ok b) (get w).1 (slept, (sleep (get w).1).1) rest)
      after_status true g slept f =
          (ok tt, (get w).1, refl, (w, s, ap (λ x. (x, (get w).1)) e, g, early))
      after_status false g (ok _) f = ends
      after_status false g (raised x) f = (
        raised x,
        (sleep (get w).1).1,
        refl,
        inr ((get w).1, inr (ap (λ y. (y, (sleep (get w).1).1)) f)),
      )
  turn-Ends deadline w rest early ends (raised cancelled) e slept f =
      (raised cancelled, (get w).1, refl, inr (w, inl (e, refl)))
  turn-Ends deadline w rest early ends (raised (app x)) e (ok _) f = ends
  turn-Ends deadline w rest early ends (raised (error x)) e (ok _) f = ends
  turn-Ends deadline w rest early ends (raised (app x)) e (raised y) f = (
    raised y,
    (sleep (get w).1).1,
    refl,
    inr ((get w).1, inr (ap (λ z. (z, (sleep (get w).1).1)) f)),
  )
  turn-Ends deadline w rest early ends (raised (error x)) e (raised y) f = (
    raised y,
    (sleep (get w).1).1,
    refl,
    inr ((get w).1, inr (ap (λ z. (z, (sleep (get w).1).1)) f)),
  )

  poll-Ends :
      ClockLaws get sleep monotonic
      → (fuel deadline : ℕ) (w : W) → deadline - monotonic w < fuel
      → Ends deadline (poll get sleep monotonic fuel deadline w)
  unfolding poll
  poll-Ends laws zero deadline w h = absurd (omega arith)
  poll-Ends laws (suc fuel) deadline w h = elim (Bool-cases (ltb (monotonic w) deadline)) [
    | inr late ↦ (raised (app vllm_not_ready), w, rw late refl, inl (refl, ground (arith, late)))
    | inl early ↦
        let w' = (get w).1 in
        let before : monotonic w < deadline = ground (arith, early) in
        let sooner : deadline - monotonic (sleep w').1 < fuel =
          omega (arith, laws.get_lem w, laws.sleep_lem w') in
        rw early (
          turn-Ends deadline w (poll get sleep monotonic fuel deadline (sleep w').1) before
            (poll-Ends laws fuel deadline (sleep w').1 sooner) (get w).0 refl (sleep w').0 refl)
  ]

  -- The wait ends within `timeout` turns where a sleep moves the clock: with an answer of status 200
  -- to 299 that was asked for in time, with `vllm_not_ready` once the deadline has passed, or
  -- with what cancelled the request or the sleep.
  pub wait_for_vllm_ready-Ends :
      ClockLaws get sleep monotonic
      → (fuel timeout : ℕ) (w : W) → timeout < fuel
      → Ends (monotonic w + timeout) (wait_for_vllm_ready get sleep monotonic fuel timeout w)
  unfolding wait_for_vllm_ready
  wait_for_vllm_ready-Ends laws fuel timeout w h =
      poll-Ends laws fuel (monotonic w + timeout) w (omega arith)
