-- ===== src/Analytics/Examples.antt =====
-- A collector with room for one event, and the theorems at it.
use ansuman_gpu_inference_se.Prelude.{
  ℕ, suc, ◌+◌, min, pos, String, Bool, ◌≡◌, refl, true, false, none, some, List, [], ◌∷◌, ◌++◌,
  length, leb, arith,
}
use ansuman_gpu_inference_se.Io.{Exc, cancelled, ok, raised, Io, pure}
use ansuman_gpu_inference_se.Analytics.Events.{
  AnalyticsEvent, AnalyticsTable, UsageEvent, usage_event, is_critical,
}
use ansuman_gpu_inference_se.Analytics.Collector.{Collector, drain_batch, requeue_front}
use ansuman_gpu_inference_se.Analytics.Collector.Kept.{
  count_by, kept, OnlyCritical, drain_batch_lem, requeue_front_at_back,
}
use ansuman_gpu_inference_se.Analytics.Collector.Accounts.{
  Call, collects, puts_back, drains, spools, perform_all, given, total, IsBounded,
  perform_all_accounts,
}
use ansuman_gpu_inference_se.Analytics.Flusher.{
  Rows, Flusher, append_row, grouped, insert_groups, insert_events, attempts, insert_with_retry,
  flush_once, run_forever,
}
use ansuman_gpu_inference_se.Analytics.Tables.Fit.{is_uint32, numbers_fit}
use ansuman_gpu_inference_se.Analytics.Flusher.Forever.{run_forever_drains}
use ansuman_gpu_inference_se.Analytics.Flusher.Delivery.{flush_once_delivers}

abbrev event : Bool → AnalyticsEvent
event critical = usage_event (record {
  event_time = 0;
  request_id = "r";
  user_id = "u";
  project_id = "p";
  api_key_id = "k";
  model = "llama";
  status = "completed";
  prompt_tokens = pos 3;
  completion_tokens = pos 4;
  total_tokens = pos 7;
  latency_ms = none;
  error_code = none;
  critical = critical;
})

abbrev collector : ℕ → Collector
collector size = record {
  queue = event false ∷ [];
  max_size = size;
  tasks = [];
  dropped_non_critical = 0;
  spooled_critical = 0;
}

only : OnlyCritical is_critical
only e h = h

drain_batch_lem_example :
    let (events, c') = drain_batch 500 (collector 1) in
    (events ++ c'.queue ≡ (collector 1).queue)
    × (length events ≡ min 500 (length (collector 1).queue))
drain_batch_lem_example = drain_batch_lem 500 (collector 1)

requeue_front_at_back_example :
    requeue_front (event true ∷ []) (collector 2)
    ≡ record (collector 2) { queue = (collector 2).queue ++ event true ∷ [] }
requeue_front_at_back_example = requeue_front_at_back (event true ∷ []) (collector 2) (omega arith)

abbrev calls : List Call
calls = collects (event false) ∷ puts_back (event true ∷ []) ∷ drains 1 ∷ spools ∷ []

perform_all_accounts_example :
    let (out, c') = perform_all calls (collector 1) in
    (total c' + length out ≡ total (collector 1) + length (given calls))
    × (kept is_critical c' + count_by is_critical out
        ≡ kept is_critical (collector 1) + count_by is_critical (given calls))
    × IsBounded c'
perform_all_accounts_example =
    perform_all_accounts is_critical calls (collector 1) only (λ h. omega arith)

abbrev flusher : Flusher
flusher = record { collector = collector 2; flush_failures = 0 }

-- A client that takes every row, over a world that counts the insertions.
abbrev takes_all : AnalyticsTable → Rows → List String → Io ℕ (Unit {0})
takes_all t rows columns w = (ok tt, suc w)

abbrev at_once : ℕ → Io ℕ (Unit {0})
at_once n = pure tt

abbrev unreported : Exc → ℕ → ℕ
unreported e w = w

flush_once_delivers_example :
    let (events, drained) = drain_batch 500 flusher.collector in
    let (q, (f', w')) = flush_once takes_all at_once unreported 500 (suc 2) (flusher, 0) in
    (q ≡ ok true
      → ((w1 : ℕ) × (insert_events takes_all at_once unreported events w1 ≡ (ok tt, w')))
        × (f'.collector ≡ drained))
    × (q ≡ ok false → kept is_critical f'.collector ≡ kept is_critical flusher.collector)
    × ((e : Exc) → q ≡ raised e → (e ≡ cancelled) × (f'.collector ≡ drained))
flush_once_delivers_example =
    flush_once_delivers takes_all at_once unreported is_critical 500 2 flusher 0 only

-- The world counts the rounds, and the flusher is stopped behind two of them.
abbrev stopped : ℕ → Bool
stopped w = leb 2 w

abbrev waits_a_round : Io ℕ (Unit {0})
waits_a_round w = (ok tt, suc w)

abbrev takes : AnalyticsTable → Rows → List String → Io ℕ (Unit {0})
takes t rows columns w = (ok tt, w)

abbrev three_queued : Flusher
three_queued = record {
  collector = record (collector 9) { queue = event true ∷ event false ∷ event true ∷ [] };
  flush_failures = 0;
}

run_forever_drains_example :
    (f' : Flusher) × (w' : ℕ) × (run_forever takes
        (λ n. pure tt)
        (λ e w. w)
        stopped
        (λ w. 2)
        waits_a_round
        1
        3
        5
        (three_queued, 0)
      ≡ some (ok tt, (f', w')))
    × (f'.collector.queue ≡ event true ∷ [])
unfolding flush_once insert_events insert_with_retry insert_groups attempts drain_batch append_row
    grouped
run_forever_drains_example =
    run_forever_drains takes (λ n. pure tt) (λ e w. w) stopped (λ w. 2) waits_a_round 1 2
      (λ t rows columns w. refl) (λ w. refl) 2 5 three_queued 0 (omega arith) (refl, (refl, refl))

-- An event whose count is past 32 bits has no place in its table.
abbrev heavy : UsageEvent
heavy = record {
  event_time = 0;
  request_id = "r";
  user_id = "u";
  project_id = "p";
  api_key_id = "k";
  model = "llama";
  status = "completed";
  prompt_tokens = pos 4294967296;
  completion_tokens = pos 4;
  total_tokens = pos 7;
  latency_ms = none;
  error_code = none;
  critical = false;
}

heavy_does_not_fit : numbers_fit (usage_event heavy) ≡ false
unfolding is_uint32
heavy_does_not_fit = refl
