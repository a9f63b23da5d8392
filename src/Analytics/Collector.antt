-- ===== src/Analytics/Collector.antt =====
-- backend/services/analytics/event_collector.py: the bounded queue and what happens when it is full.
pub mod Kept
pub mod Accounts
use ansuman_gpu_inference_se.Prelude.{
  ℕ, zero, suc, ◌+◌, Bool, true, false, ◌&&◌, List, [], ◌∷◌, ◌++◌, length, ltb, leb, if◌then◌else◌,
}
use ansuman_gpu_inference_se.Io.{Io, try_except, pure}
use ansuman_gpu_inference_se.Analytics.Events.{AnalyticsEvent, is_critical}

-- `AnalyticsCollector`; `tasks` are the events of the `_safe_spool` tasks that have not run yet.
pub record Collector : Type 0 where
  pub queue : List AnalyticsEvent
  pub max_size : ℕ
  pub tasks : List AnalyticsEvent
  pub dropped_non_critical : ℕ
  pub spooled_critical : ℕ

-- `asyncio.Queue.full`: a queue of size 0 has no bound.
abbrev pub is_full : Collector → Bool
is_full c = ltb 0 c.max_size && leb c.max_size (length c.queue)

abbrev pub queued : AnalyticsEvent → Collector → Collector
queued event c = record c { queue = c.queue ++ event ∷ [] }

abbrev pub spooling : AnalyticsEvent → Collector → Collector
spooling event c = record c { tasks = c.tasks ++ event ∷ [] }

abbrev pub dropped : Collector → Collector
dropped c = record c { dropped_non_critical = c.dropped_non_critical + 1 }

abbrev pub counted_spool : Collector → Collector
counted_spool c = record c { spooled_critical = c.spooled_critical + 1 }

-- `collect`
unfoldable pub collect : AnalyticsEvent → Collector → Bool × Collector
collect event c =
    if is_full c
    then (false, if is_critical event then spooling event (counted_spool c) else dropped c)
    else (true, queued event c)

-- The loop of `drain_batch`: what it takes, and what stays in the queue.
unfoldable pub drain : ℕ → List AnalyticsEvent → List AnalyticsEvent × List AnalyticsEvent
drain zero queue = ([], queue)
drain (suc n) [] = ([], [])
drain (suc n) (e ∷ queue) = let (events, rest) = drain n queue in (e ∷ events, rest)

unfoldable pub drain_batch : ℕ → Collector → List AnalyticsEvent × Collector
unfolding drain
drain_batch batch_size c =
    let (events, rest) = drain batch_size c.queue in (events, record c { queue = rest })

-- One turn of the loop of `requeue_front`.
unfoldable pub requeue : AnalyticsEvent → Collector → Collector
requeue event c =
    if is_full c
    then (if is_critical event then spooling event c else dropped c)
    else queued event c

unfoldable pub requeue_front : List AnalyticsEvent → Collector → Collector
unfolding requeue
requeue_front [] c = c
requeue_front (event ∷ events) c = requeue_front events (requeue event c)
