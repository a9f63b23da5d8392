-- ===== src/Analytics/Flusher/Forever.antt =====
-- How far `run_forever` and `stop` of backend/services/analytics/clickhouse_flusher.py get with the
-- queue.
use ansuman_gpu_inference_se.Prelude.{
  ℕ, zero, suc, ◌+◌, ◌*◌, ◌<◌, String, Bool, true, false, ◌≡◌, refl, sym, subst, ap, ◌∙◌, some,
  List, [], ◌∷◌, drop, arith,
}
use ansuman_gpu_inference_se.Io.{Exc, ok, raised, Io, pure}
use ansuman_gpu_inference_se.Io.Keeps.{bind_ok}
use ansuman_gpu_inference_se.Analytics.Events.{AnalyticsEvent, AnalyticsTable, columns_for_table}
use ansuman_gpu_inference_se.Analytics.Collector.{drain, drain_batch}
use ansuman_gpu_inference_se.Analytics.Flusher.Delivery.{attempts_now}
use ansuman_gpu_inference_se.Analytics.Flusher.{
  Rows, Flusher, insert_groups, insert_events, insert_with_retry, settle, flush_events, flush_once,
  grouped, waiting, round, run_forever, stop,
}

drain-drop : (n : ℕ) (queue : List AnalyticsEvent) → (drain n queue).1 ≡ drop n queue
unfolding drain
drain-drop zero queue = refl
drain-drop (suc n) [] = refl
drain-drop (suc n) (e ∷ queue) = drain-drop n queue

drop-nil : (n : ℕ) → drop {A = AnalyticsEvent} n [] ≡ []
drop-nil zero = refl
drop-nil (suc n) = refl

drop-drop : (m n : ℕ) (queue : List AnalyticsEvent) → drop m (drop n queue) ≡ drop (n + m) queue
drop-drop m zero queue = ap (λ k. drop k queue) (omega arith)
drop-drop m (suc n) [] = drop-nil m ∙ sym (drop-nil (suc n + m))
drop-drop m (suc n) (e ∷ queue) =
    let more : suc (n + m) ≡ suc n + m = omega arith in
    drop-drop m n queue ∙ ap (λ k. drop k (e ∷ queue)) more

module _ {W : Type 0} (insert : AnalyticsTable → Rows → List String → Io W (Unit {0}))
    (sleep : ℕ → Io W (Unit {0})) (report : Exc → W → W) where
  -- ClickHouse takes every insertion.
  abbrev pub Accepts : Type 0
  Accepts =
      (t : AnalyticsTable) (rows : Rows) (columns : List String) (w : W)
      → (insert t rows columns w).0 ≡ ok tt

  insert_groups_ok :
      Accepts
      → (groups : List (AnalyticsTable × Rows)) (w : W)
      → (insert_groups insert sleep report groups w).0 ≡ ok tt
  unfolding insert_groups
  insert_groups_ok accepts [] w = refl
  insert_groups_ok accepts ((t, rows) ∷ groups) w =
      let columns = columns_for_table t in
      ap (λ x. x.0)
        (bind_ok (insert t rows columns) (λ _. insert_groups insert sleep report groups) w
          (accepts t rows columns w))
      ∙ insert_groups_ok accepts groups (insert t rows columns w).1

  flush_events_ok :
      Accepts
      → (retries : ℕ) (events : List AnalyticsEvent) (f : Flusher) (w : W)
      → let (r, (f', w')) = flush_events insert sleep report (suc retries) events f w in
        (r ≡ ok true) × (f' ≡ f)
  unfolding insert_with_retry insert_events
  flush_events_ok accepts retries [] f w = (refl, refl)
  flush_events_ok accepts retries (e ∷ es) f w =
      let groups = grouped (e ∷ es) [] in
      let wrote = insert_groups_ok accepts groups w in
      let now = attempts_now insert sleep report retries 1 (e ∷ es) w wrote in
      let (r, w') = insert_with_retry insert sleep report (suc retries) (e ∷ es) w in
      let done : r ≡ ok tt = ap (λ x. x.0) now ∙ wrote in
      subst
        (λ q.
          let (a, (f', _)) = settle insert sleep report (e ∷ es) f (q, w') in
          (a ≡ ok true) × (f' ≡ f))
        (sym done) (refl, refl)

  pub flush_once_ok :
      Accepts
      → (batch_size retries : ℕ) (f : Flusher) (w : W)
      → let (r, (f', w')) = flush_once insert sleep report batch_size (suc retries) (f, w) in
        (r ≡ ok true) × (f'.collector.queue ≡ drop batch_size f.collector.queue)
  unfolding flush_once drain_batch
  flush_once_ok accepts batch_size retries f w =
      let (events, collector) = drain_batch batch_size f.collector in
      let (flushed, same) =
        flush_events_ok accepts retries events (record f { collector = collector }) w in
      (flushed, ap (λ g. g.collector.queue) same ∙ drain-drop batch_size f.collector.queue)

  module _ (is_set : W → Bool) (set : W → W) (wait : Io W (Unit {0})) (batch_size retries : ℕ)
      (accepts : Accepts) (waits : (w : W) → (wait w).0 ≡ ok tt) where
    abbrev one_round : Io (Flusher × W) (Unit {0})
    one_round = round insert sleep report is_set set wait batch_size (suc retries)

    -- The flusher and the world behind some rounds of the loop.
    abbrev pub rounds : ℕ → Flusher × W → Flusher × W
    rounds zero s = s
    rounds (suc n) s = rounds n (one_round s).1

    round_ok :
        (f : Flusher) (w : W)
        → let (r, (f', w')) = one_round (f, w) in
          (r ≡ ok tt) × (f'.collector.queue ≡ drop batch_size f.collector.queue)
    round_ok f w =
        let (flushed, rest) = flush_once_ok accepts batch_size retries f w in
        let (f', w') = (flush_once insert sleep report batch_size (suc retries) (f, w)).1 in
        let next = waiting insert sleep report is_set set wait batch_size (suc retries) in
        let goes =
          bind_ok (flush_once insert sleep report batch_size (suc retries)) (λ _. next) (f, w)
            flushed in
        (ap (λ x. x.0) goes ∙ waits w', ap (λ x. x.1.0.collector.queue) goes ∙ rest)

    rounds-drop :
        (n : ℕ) (s : Flusher × W)
        → (rounds n s).0.collector.queue ≡ drop (n * batch_size) s.0.collector.queue
    rounds-drop zero s =
        let nothing : 0 ≡ zero * batch_size = omega arith in
        ap (λ k. drop k s.0.collector.queue) nothing
    rounds-drop (suc n) s =
        let more : batch_size + n * batch_size ≡ suc n * batch_size = grind arith in
        rounds-drop n (one_round s).1
        ∙ ap (drop (n * batch_size)) (round_ok s.0 s.1).1
        ∙ drop-drop (n * batch_size) batch_size s.0.collector.queue
        ∙ ap (λ k. drop k s.0.collector.queue) more

    -- The event is set behind `n` rounds, and not before.
    abbrev pub StopsAfter : ℕ → Flusher × W → Type 0
    StopsAfter zero s = is_set s.1 ≡ true
    StopsAfter (suc n) s = (is_set s.1 ≡ false) × StopsAfter n (one_round s).1

    run_forever-rounds :
        (n fuel : ℕ) (s : Flusher × W)
        → n < fuel
        → StopsAfter n s
        → run_forever insert sleep report is_set set wait batch_size (suc retries) fuel s
          ≡ some (ok tt, rounds n s)
    unfolding run_forever
    run_forever-rounds n zero s h stops = absurd (omega arith)
    run_forever-rounds zero (suc fuel) s h stops = rw stops refl
    run_forever-rounds (suc n) (suc fuel) s h stops =
        let rest =
          run_forever insert sleep report is_set set wait batch_size (suc retries) fuel
            (one_round s).1 in
        rw stops.0 (
          ap (λ r. elim r [ ok _ ↦ rest | raised e ↦ some (raised e, (one_round s).1) ])
            (round_ok s.0 s.1).0
          ∙ run_forever-rounds n fuel (one_round s).1 (omega arith) stops.1)

    -- While ClickHouse takes every insertion and nothing is collected, the loop ends once the event is
    -- set, and has then taken a batch from the front of the queue in every round.
    pub run_forever_drains :
        (n fuel : ℕ) (f : Flusher) (w : W)
        → n < fuel
        → StopsAfter n (f, w)
        → (f' : Flusher) × (w' : W) × (run_forever insert sleep report is_set set wait batch_size
              (suc retries)
              fuel
              (f, w)
            ≡ some (ok tt, (f', w')))
          × (f'.collector.queue ≡ drop (n * batch_size) f.collector.queue)
    run_forever_drains n fuel f w h stops =
        let (f', w') = rounds n (f, w) in
        (f', w', run_forever-rounds n fuel (f, w) h stops, rounds-drop n (f, w))

    -- `stop` writes one batch: what is queued behind it stays in the queue.
    pub stop-drop :
        (f : Flusher) (w : W)
        → let (r, (f', w')) =
            stop insert sleep report is_set set wait batch_size (suc retries) (f, w) in
          (r ≡ ok tt) × (f'.collector.queue ≡ drop batch_size f.collector.queue)
    unfolding stop
    stop-drop f w =
        let (flushed, rest) = flush_once_ok accepts batch_size retries f (set w) in
        let goes =
          bind_ok (flush_once insert sleep report batch_size (suc retries)) (λ _. pure tt)
            (f, set w) flushed in
        (ap (λ x. x.0) goes, ap (λ x. x.1.0.collector.queue) goes ∙ rest)
