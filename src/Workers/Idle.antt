-- ===== src/Workers/Idle.antt =====
-- What the process of backend/workers/analytics_flusher.py does.
use ansuman_gpu_inference_se.Prelude.{
  ℕ, zero, suc, Bool, true, false, ◌≡◌, refl, ap, ◌∙◌, String, Option, none, some, List, [],
  if◌then◌else◌,
}
use ansuman_gpu_inference_se.Io.{Exc, Result, ok, raised, Io, within}
use ansuman_gpu_inference_se.Io.Keeps.{bind_ok}
use ansuman_gpu_inference_se.Analytics.Events.{AnalyticsTable}
use ansuman_gpu_inference_se.Analytics.Collector.{drain, drain_batch}
use ansuman_gpu_inference_se.Analytics.Flusher.{
  Rows, Flusher, flush_once, waiting, round, run_forever,
}
use ansuman_gpu_inference_se.Workers.{new_flusher, analytics_flusher_main}

module _ {W : Type 0} (is_set : W → Bool) (wait : Io W (Unit {0})) where
  -- A loop that waits until the event is set, and does nothing else.
  unfoldable pub wait_until : ℕ → W → Option (Result (Unit {0}) × W)
  wait_until zero w = none
  wait_until (suc fuel) w =
      let (r, w') = wait w in
      let rest = wait_until fuel w' in
      if is_set w then some (ok tt, w) else elim r [ ok _ ↦ rest | raised e ↦ some (raised e, w') ]

abbrev pub beside :
    {W : Type 0}
    → Flusher
    → Option (Result (Unit {0}) × W)
    → Option (Result (Unit {0}) × (Flusher × W))
beside f none = none
beside f (some (r, w)) = some (r, (f, w))

drain-nil : (n : ℕ) → drain n [] ≡ ([], [])
unfolding drain
drain-nil zero = refl
drain-nil (suc n) = refl

module _ {W : Type 0} (insert : AnalyticsTable → Rows → List String → Io W (Unit {0}))
    (sleep : ℕ → Io W (Unit {0})) (report : Exc → W → W) (is_set : W → Bool) (set : W → W)
    (wait : Io W (Unit {0})) (queue_size batch_size : ℕ) where
  flush_once-idle :
      (w : W)
      → flush_once insert sleep report batch_size 3 (new_flusher queue_size, w)
        ≡ (ok true, (new_flusher queue_size, w))
  unfolding flush_once drain_batch
  flush_once-idle w = rw (drain-nil batch_size) refl

  abbrev idle : Flusher
  idle = new_flusher queue_size

  round-idle :
      (w : W)
      → round insert sleep report is_set set wait batch_size 3 (idle, w) ≡ within idle (wait w)
  round-idle w =
      bind_ok (flush_once insert sleep report batch_size 3)
        (λ _. waiting insert sleep report is_set set wait batch_size 3) (idle, w)
        (ap (λ p. p.0) (flush_once-idle w))
      ∙ ap (λ p. waiting insert sleep report is_set set wait batch_size 3 p.1) (flush_once-idle w)

  -- What a turn of `run_forever` makes of its round and of the turns that follow it.
  abbrev after_round :
      Bool
      → W
      → Result (Unit {0}) × (Flusher × W)
      → (Flusher × W → Option (Result (Unit {0}) × (Flusher × W)))
      → Option (Result (Unit {0}) × (Flusher × W))
  after_round done w (r, s') rest =
      if done
      then some (ok tt, (idle, w))
      else elim r [ ok _ ↦ rest s' | raised e ↦ some (raised e, s') ]

  after_round-beside :
      (done : Bool) (r : Result (Unit {0})) (w w' : W)
      (run : Flusher × W → Option (Result (Unit {0}) × (Flusher × W)))
      (rest : Option (Result (Unit {0}) × W))
      → run (idle, w') ≡ beside idle rest
      → after_round done w (r, (idle, w')) run
        ≡ beside idle (
            if done
            then some (ok tt, w)
            else elim r [ ok _ ↦ rest | raised e ↦ some (raised e, w') ])
  after_round-beside true r w w' run rest h = refl
  after_round-beside false (ok _) w w' run rest h = h
  after_round-beside false (raised e) w w' run rest h = refl

  -- The process of the flusher collects nothing itself, so whatever the client and the settings are
  -- it is a loop that waits: it never inserts a row and never reports a failure.
  pub analytics_flusher_main_waits :
      (fuel : ℕ) (w : W)
      → analytics_flusher_main insert sleep report is_set set wait queue_size batch_size fuel w
        ≡ beside (new_flusher queue_size) (wait_until is_set wait fuel w)
  unfolding analytics_flusher_main run_forever wait_until
  analytics_flusher_main_waits zero w = refl
  analytics_flusher_main_waits (suc fuel) w =
      let rest = run_forever insert sleep report is_set set wait batch_size 3 fuel in
      ap (λ p. after_round (is_set w) w p rest) (round-idle w)
      ∙ after_round-beside (is_set w) (wait w).0 w (wait w).1 rest
          (wait_until is_set wait fuel (wait w).1) (analytics_flusher_main_waits fuel (wait w).1)
