-- ===== src/Analytics/Flusher.antt =====
-- backend/services/analytics/clickhouse_flusher.py: batches of events, written to ClickHouse.
pub mod Delivery
pub mod Forever
use ansuman_gpu_inference_se.Prelude.{
  ℕ, zero, suc, ◌+◌, ◌*◌, String, Bool, true, false, Option, none, some, List, [], ◌∷◌, ◌++◌,
  if◌then◌else◌, ◌==◌,
}
use ansuman_gpu_inference_se.Io.{
  Exc, app, error, cancelled, Result, ok, raised, Io, pure, raise, ◌>>=◌, ◌>>◌, try_except, within,
}
use ansuman_gpu_inference_se.Analytics.Events.{
  AnalyticsEvent, AnalyticsTable, usage_events, inference_events, Cell, table, to_row,
  columns_for_table,
}
use ansuman_gpu_inference_se.Analytics.Collector.{Collector, drain_batch, requeue_front}

-- `t == u`
abbrev pub eqb_table : AnalyticsTable → AnalyticsTable → Bool
eqb_table usage_events usage_events = true
eqb_table inference_events inference_events = true
eqb_table _ _ = false

abbrev pub Rows : Type 0
Rows = List (List Cell)

-- `grouped[t].append(row)`, on a `defaultdict` in insertion order.
unfoldable pub append_row :
    AnalyticsTable → List Cell → List (AnalyticsTable × Rows) → List (AnalyticsTable × Rows)
append_row t row [] = (t, row ∷ []) ∷ []
append_row t row ((u, rows) ∷ groups) =
    let rest = append_row t row groups in
    if eqb_table t u then (u, rows ++ row ∷ []) ∷ groups else (u, rows) ∷ rest

-- The first loop of `_insert`.
unfoldable pub grouped :
    List AnalyticsEvent → List (AnalyticsTable × Rows) → List (AnalyticsTable × Rows)
unfolding append_row
grouped [] groups = groups
grouped (event ∷ events) groups = grouped events (append_row (table event) (to_row event) groups)

-- `ClickHouseFlusher`; the collector is the object it shares with the request path.
pub record Flusher : Type 0 where
  pub collector : Collector
  pub flush_failures : ℕ

-- `insert` is the client's, and `sleep` the event loop's, in tenths of a second; `report` is the
-- metric, the log line and the Sentry event of a failed flush.
module _ {W : Type 0} (insert : AnalyticsTable → Rows → List String → Io W (Unit {0}))
    (sleep : ℕ → Io W (Unit {0})) (report : Exc → W → W) where
  unfoldable pub insert_groups : List (AnalyticsTable × Rows) → Io W (Unit {0})
  insert_groups [] = pure tt
  insert_groups ((t, rows) ∷ groups) = insert t rows (columns_for_table t) >> insert_groups groups

  -- `_insert`
  unfoldable pub insert_events : List AnalyticsEvent → Io W (Unit {0})
  unfolding grouped insert_groups
  insert_events events = insert_groups (grouped events [])

  -- The loop of `_insert_with_retry` with `left` more attempts: the last one raises what it meets.
  unfoldable pub attempts : ℕ → ℕ → List AnalyticsEvent → Io W (Unit {0})
  attempts zero delay events = pure tt
  attempts (suc left) delay events =
      let again = attempts left (delay * 2) events in
      try_except (insert_events events)
        (λ exc. if left == 0 then raise exc else (sleep delay >> again))

  unfoldable pub insert_with_retry : ℕ → List AnalyticsEvent → Io W (Unit {0})
  unfolding attempts
  insert_with_retry max_retries events = attempts max_retries 1 events

  -- What `flush_once` does once the insertion has ended.
  abbrev pub settle :
      List AnalyticsEvent → Flusher → Result (Unit {0}) × W → Result Bool × (Flusher × W)
  settle events f (ok _, w) = (ok true, (f, w))
  settle events f (raised cancelled, w) = (raised cancelled, (f, w))
  settle events f (raised e, w) = (
    ok false,
    (
      record {
        collector = requeue_front events f.collector;
        flush_failures = f.flush_failures + 1;
      },
      report e w,
    ),
  )

  abbrev pub flush_events : ℕ → List AnalyticsEvent → Flusher → W → Result Bool × (Flusher × W)
  flush_events max_retries [] f w = (ok true, (f, w))
  flush_events max_retries (e ∷ es) f w =
      settle (e ∷ es) f (insert_with_retry max_retries (e ∷ es) w)

  unfoldable pub flush_once : ℕ → ℕ → Io (Flusher × W) Bool
  unfolding insert_with_retry
  flush_once batch_size max_retries (f, w) =
      let (events, collector) = drain_batch batch_size f.collector in
      flush_events max_retries events (record f { collector = collector }) w

-- The loop of the worker. `is_set` reads the event `_stopped`, `set` sets it, and `wait` is
-- `asyncio.wait_for` on it, which returns when it is set and, with its `TimeoutError` caught, when the
-- interval is over.
module _ {W : Type 0} (insert : AnalyticsTable → Rows → List String → Io W (Unit {0}))
    (sleep : ℕ → Io W (Unit {0})) (report : Exc → W → W) (is_set : W → Bool) (set : W → W)
    (wait : Io W (Unit {0})) (batch_size max_retries : ℕ) where
  abbrev pub waiting : Io (Flusher × W) (Unit {0})
  waiting (f, w) = within f (wait w)

  -- The body of the loop.
  abbrev pub round : Io (Flusher × W) (Unit {0})
  round = flush_once insert sleep report batch_size max_retries >> waiting

  -- `run_forever` for as many rounds as there is fuel, where `none` says that it still runs.
  unfoldable pub run_forever : ℕ → Flusher × W → Option (Result (Unit {0}) × (Flusher × W))
  run_forever zero s = none
  run_forever (suc fuel) s =
      let (r, s') = round s in
      let rest = run_forever fuel s' in
      if is_set s.1
      then some (ok tt, s)
      else elim r [ ok _ ↦ rest | raised e ↦ some (raised e, s') ]

  -- `stop`
  unfoldable pub stop : Io (Flusher × W) (Unit {0})
  stop (f, w) = (flush_once insert sleep report batch_size max_retries >> pure tt) (f, set w)
