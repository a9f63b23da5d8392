-- ===== src/Workers/Ends.antt =====
-- How the processes of backend/workers/batch_worker.py and backend/workers/recovery_scanner.py end.
use ansuman_gpu_inference_se.Prelude.{
  ℕ, zero, suc, ◌<◌, Bool, true, false, ◌≡◌, refl, ap, ◌∙◌, some, arith, if◌then◌else◌,
}
use ansuman_gpu_inference_se.Io.{
  Exc, app, error, cancelled, Result, ok, raised, Io, pure, raise, try_except, finally, ◌>>◌,
}
use ansuman_gpu_inference_se.Io.Keeps.{Keeps, pure-Keeps, bind-Keeps, Returns, returned_at, bind_ok}
use ansuman_gpu_inference_se.Batch.Worker.{Worker}
use ansuman_gpu_inference_se.Batch.Worker.Steps.{WorkerLaws}
use ansuman_gpu_inference_se.Batch.Worker.Slots.{process_one_settles}
use ansuman_gpu_inference_se.Workers.{
  Clients, without_vllm_client, without_redis_client, without_engine, forever, closing, guarded,
  report_and_raise, reported, batch_worker_turn, batch_worker_cleanup, batch_worker_main,
}

module _ {W : Type 0} (turn : Io W (Unit {0})) where
  -- `n` turns return, and the next one raises `e`.
  abbrev pub StopsAfter : ℕ → Exc → W → Type 0
  StopsAfter zero e w = (turn w).0 ≡ raised e
  StopsAfter (suc n) e w = ((turn w).0 ≡ ok tt) × StopsAfter n e (turn w).1

  -- The world behind the turn that ends the loop.
  abbrev pub stopped : ℕ → W → W
  stopped zero w = (turn w).1
  stopped (suc n) w = stopped n (turn w).1

  pub forever-stopped :
      (n fuel : ℕ) (e : Exc) (w : W)
      → n < fuel
      → StopsAfter n e w
      → forever turn fuel w ≡ some (e, stopped n w)
  unfolding forever
  forever-stopped n zero e w h stops = absurd (omega arith)
  forever-stopped zero (suc fuel) e w h stops = rw (stops, forever) refl
  forever-stopped (suc n) (suc fuel) e w h stops =
      rw (stops.0, forever) (forever-stopped n fuel e (turn w).1 (omega arith) stops.1)

  pub stopped-Keeps :
      (measure : W → ℕ) → Keeps measure turn → (n : ℕ) (w : W) → measure (stopped n w) ≡ measure w
  stopped-Keeps measure k zero w = k.keeps w
  stopped-Keeps measure k (suc n) w = stopped-Keeps measure k n (turn w).1 ∙ k.keeps w

module _ {W : Type 0} (held : W → ℕ) where
  -- The call ends with `r` and these clients, and no lease is taken or given.
  abbrev pub Leaves : {A : Type 0} → Result A × (Clients × W) → Result A → Clients → W → Type 0
  Leaves p r clients w = (w' : W) × (p ≡ (r, (clients, w'))) × (held w' ≡ held w)

  pub closing-Leaves :
      (mark : Clients → Clients) (close : Io W (Unit {0}))
      → Returns close
      → Keeps held close
      → (c : Clients) (w : W) → Leaves (closing mark close (c, w)) (ok tt) (mark c) w
  closing-Leaves mark close returns keeps c w =
      let (_, done) = returned_at (close w).0 (returns.returns w) in
      ((close w).1, rw (done, closing) refl, keeps.keeps w)

  pub closing_then-Leaves :
      (mark : Clients → Clients) (close : Io W (Unit {0}))
      → Returns close × Keeps held close
      → (k : Io (Clients × W) (Unit {0})) (c d : Clients)
      → ((v : W) → Leaves (k (mark c, v)) (ok tt) d v)
      → (w : W) → Leaves ((closing mark close >> k) (c, w)) (ok tt) d w
  closing_then-Leaves mark close (returns, keeps) k c d next w =
      let (v, e, h) = closing-Leaves mark close returns keeps c w in
      let (v', e', h') = next v in
      (
        v',
        bind_ok (closing mark close) (λ _. k) (c, w) (ap (λ p. p.0) e) ∙ ap (λ p. k p.1) e ∙ e',
        h' ∙ h,
      )

  report_and_raise-Leaves :
      (capture : Exc → W → W)
      → ((e : Exc) (w : W) → held (capture e w) ≡ held w)
      → (e : Exc) (c : Clients) (w : W)
      → Leaves (try_except (raise e) (report_and_raise capture) (c, w)) (raised e) c w
  report_and_raise-Leaves capture keeps (app x) c w = (capture (app x) w, refl, keeps (app x) w)
  report_and_raise-Leaves capture keeps (error s) c w =
      (capture (error s) w, refl, keeps (error s) w)
  report_and_raise-Leaves capture keeps cancelled c w = (w, refl, refl)

  -- What a process leaves whose loop has ended and whose cleanup returns.
  pub reported-Leaves :
      (capture : Exc → W → W)
      → ((e : Exc) (w : W) → held (capture e w) ≡ held w)
      → (cleanup : Io (Clients × W) (Unit {0})) (c d : Clients)
      → ((v : W) → Leaves (cleanup (c, v)) (ok tt) d v)
      → (e : Exc) (w : W)
      → (w' : W) × (reported capture (guarded c cleanup (some (e, w))) ≡ some (raised e, (d, w')))
        × (held w' ≡ held w)
  reported-Leaves capture keeps cleanup c d cleans e w =
      let (v, done, h) = cleans w in
      let (v', told, h') = report_and_raise-Leaves capture keeps e d v in
      let closed : finally (raise e) cleanup (c, w) ≡ (raised e, (d, v)) =
        ap (λ p. elim (p.0) [ ok _ ↦ (raised e, p.1) | raised x ↦ (raised x, p.1) ]) done in
      (
        v',
        ap (λ p. some (try_except (λ t. (p.0, t)) (report_and_raise capture) p.1)) closed
            ∙ ap some told,
        h' ∙ h,
      )

  module _ {L : Type 0} (worker : Worker W L) (laws : WorkerLaws worker held)
      (sleep : ℕ → Io W (Unit {0})) (sleep-Keeps : (n : ℕ) → Keeps held (sleep n))
      (close_vllm aclose dispose : Io W (Unit {0})) where
    batch_worker_turn-Keeps : Keeps held (batch_worker_turn worker sleep)
    unfolding batch_worker_turn
    batch_worker_turn-Keeps =
        bind-Keeps held (record { keeps = process_one_settles worker laws }) wait
      where
        wait : (processed : Bool) → Keeps held (if processed then pure tt else sleep 1)
        wait true = pure-Keeps held tt
        wait false = sleep-Keeps 1

    -- A batch worker whose clients can be closed ends with the first exception that a turn raises: it
    -- has then closed the three clients and holds the leases that it held before.
    pub batch_worker_main_releases :
        Returns close_vllm × Keeps held close_vllm
        → Returns aclose × Keeps held aclose
        → Returns dispose × Keeps held dispose
        → (n fuel : ℕ) (e : Exc) (w : W) → n < fuel
        → StopsAfter (batch_worker_turn worker sleep) n e w
        → (w' : W) × (batch_worker_main close_vllm aclose dispose worker.capture worker sleep fuel w
            ≡ some (
              raised e,
              (record { vllm_client = false; redis_client = false; engine = false }, w'),
            ))
          × (held w' ≡ held w)
    unfolding batch_worker_main
    batch_worker_main_releases vllm redis engine n fuel e w h stops =
        let turn = batch_worker_turn worker sleep in
        let opened : Clients = record { vllm_client = true; redis_client = true; engine = true } in
        let redis_left = without_vllm_client opened in
        let engine_left = without_redis_client redis_left in
        let close_engine = closing without_engine dispose in
        let cleans =
          closing_then-Leaves without_vllm_client close_vllm vllm
            (closing without_redis_client aclose >> close_engine) opened
            (without_engine engine_left)
            (closing_then-Leaves without_redis_client aclose redis close_engine redis_left
              (without_engine engine_left)
              (closing-Leaves without_engine dispose engine.0 engine.1 engine_left)) in
        let (w', ends, same) =
          reported-Leaves worker.capture laws.held-capture
            (batch_worker_cleanup close_vllm aclose dispose worker.capture) opened
            (without_engine engine_left) cleans e (stopped turn n w) in
        (
          w',
          ap
                (λ o. reported worker.capture (
                  guarded opened (batch_worker_cleanup close_vllm aclose dispose worker.capture) o))
                (forever-stopped turn n fuel e w h stops)
              ∙ ends,
          same ∙ stopped-Keeps turn held batch_worker_turn-Keeps n w,
        )
