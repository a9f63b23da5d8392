-- ===== src/Workers/Examples.antt =====
-- Processes on a world with the number of leases that are held and the number of jobs that were taken.
use ansuman_gpu_inference_se.Prelude.{
  ℕ, suc, ◌-◌, ◌==◌, ◌≡◌, refl, String, Option, some, false, ◌+ℤ◌, arith, if◌then◌else◌,
}
use ansuman_gpu_inference_se.Io.{error, ok, raised, Io, pure, raise}
use ansuman_gpu_inference_se.Io.Keeps.{Keeps, Returns}
use ansuman_gpu_inference_se.Inference.Services.{AdmissionController}
use ansuman_gpu_inference_se.Tokens.Estimate.{estimate_prompt_tokens}
use ansuman_gpu_inference_se.Tokens.Plan.{build_token_plan}
use ansuman_gpu_inference_se.Batch.Worker.{process_one}
use ansuman_gpu_inference_se.Batch.Worker.Examples.{worker_over, worker_over-Laws}
use ansuman_gpu_inference_se.Workers.{
  new_flusher, batch_worker_turn, batch_worker_main, analytics_flusher_main,
}
use ansuman_gpu_inference_se.Workers.Ends.{batch_worker_main_releases}
use ansuman_gpu_inference_se.Workers.Idle.{analytics_flusher_main_waits, wait_until, beside}

abbrev held : ℕ × ℕ → ℕ
held (n, taken) = n

abbrev counting : AdmissionController (ℕ × ℕ) (Unit {0})
counting = record {
  admit = λ c n (w, taken). (ok tt, (suc w, taken));
  finalize_tokens = λ l n b. pure tt;
  release = λ l (w, taken). (ok tt, (w - 1, taken));
}

-- One job, and then no connection.
abbrev dequeue : Io (ℕ × ℕ) (Option String)
dequeue (n, taken) =
    (if taken == 0 then ok (some "job_1") else raised (error "reset"), (n, suc taken))

abbrev close : Io (ℕ × ℕ) (Unit {0})
close w = (ok tt, w)

close_ok : Returns close × Keeps held close
close_ok = (record { returns = λ w. refl }, record { keeps = λ w. refl })

batch_worker_main_releases_example :
    (w' : ℕ × ℕ) × (batch_worker_main close close close
        (λ e w. w)
        (worker_over counting dequeue)
        (λ n. pure tt)
        5
        (3, 0)
      ≡ some (
        raised (error "reset"),
        (record { vllm_client = false; redis_client = false; engine = false }, w'),
      ))
    × (held w' ≡ 3)
unfolding batch_worker_turn process_one build_token_plan estimate_prompt_tokens ◌+ℤ◌
batch_worker_main_releases_example =
    batch_worker_main_releases held (worker_over counting dequeue)
      (worker_over-Laws held counting dequeue
        (record {
          held-admit = λ c n w. refl;
          held-release = λ l w. refl;
          finalize_tokens-Keeps = λ l n b. record { keeps = λ w. refl };
        })
        (record { keeps = λ w. refl }))
      (λ n. pure tt) (λ n. record { keeps = λ w. refl }) close close close close_ok close_ok
      close_ok 1 5 (error "reset") (3, 0) (omega arith) (refl, refl)

-- A world that counts the rounds, where the client refuses and the event is set in the fourth.
analytics_flusher_main_waits_example :
    analytics_flusher_main
      (λ t rows columns. raise (error "refused"))
      (λ n. pure tt)
      (λ e n. 99)
      (λ n. n == 3)
      (λ n. n)
      (λ n. (ok tt, suc n))
      100
      500
      7
      0
    ≡ beside (new_flusher 100) (wait_until (λ n. n == 3) (λ n. (ok tt, suc n)) 7 0)
analytics_flusher_main_waits_example =
    analytics_flusher_main_waits (λ t rows columns. raise (error "refused")) (λ n. pure tt)
      (λ e n. 99) (λ n. n == 3) (λ n. n) (λ n. (ok tt, suc n)) 100 500 7 0
