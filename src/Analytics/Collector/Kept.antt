-- ===== src/Analytics/Collector/Kept.antt =====
-- What the collector of backend/services/analytics/event_collector.py keeps and what it drops.
use mathlib.Core.List.{append-nil, append_assoc}
use ansuman_gpu_inference_se.Prelude.{
  ℕ, zero, suc, ◌+◌, ◌≤◌, min, Bool, true, ◌≡◌, refl, ap, sym, ◌∙◌, List, [], ◌∷◌, ◌++◌, length,
  length-append, arith, if◌then◌else◌,
}
use ansuman_gpu_inference_se.Analytics.Events.{AnalyticsEvent, is_critical}
use ansuman_gpu_inference_se.Analytics.Collector.{
  Collector, queued, collect, drain, drain_batch, requeue, requeue_front,
}

-- How many events pass a test.
abbrev pub count_by : (AnalyticsEvent → Bool) → List AnalyticsEvent → ℕ
count_by p [] = 0
count_by p (e ∷ es) = (if p e then 1 else 0) + count_by p es

-- How many events pass a test among those that are queued or on their way to the spool.
abbrev pub kept : (AnalyticsEvent → Bool) → Collector → ℕ
kept p c = count_by p c.queue + count_by p c.tasks

-- The test holds of critical events only.
abbrev pub OnlyCritical : (AnalyticsEvent → Bool) → Type 0
OnlyCritical p = (e : AnalyticsEvent) → p e ≡ true → is_critical e ≡ true

pub count_by-append :
    (p : AnalyticsEvent → Bool) (xs ys : List AnalyticsEvent)
    → count_by p (xs ++ ys) ≡ count_by p xs + count_by p ys
count_by-append p [] ys = omega arith
count_by-append p (x ∷ xs) ys = omega (arith, count_by-append p xs ys)

pub kept-collect :
    (p : AnalyticsEvent → Bool) (c : Collector) (event : AnalyticsEvent)
    → OnlyCritical p
    → kept p (collect event c).1 ≡ kept p c + count_by p (event ∷ [])
unfolding collect
kept-collect p c event only = ground (
  arith,
  count_by-append p c.queue (event ∷ []),
  count_by-append p c.tasks (event ∷ []),
  only event,
)

kept-requeue :
    (p : AnalyticsEvent → Bool) (c : Collector) (event : AnalyticsEvent)
    → OnlyCritical p
    → kept p (requeue event c) ≡ kept p c + count_by p (event ∷ [])
unfolding requeue
kept-requeue p c event only = ground (
  arith,
  count_by-append p c.queue (event ∷ []),
  count_by-append p c.tasks (event ∷ []),
  only event,
)

pub kept-requeue_front :
    (p : AnalyticsEvent → Bool) (events : List AnalyticsEvent) (c : Collector)
    → OnlyCritical p
    → kept p (requeue_front events c) ≡ kept p c + count_by p events
unfolding requeue_front
kept-requeue_front p [] c only = omega arith
kept-requeue_front p (e ∷ es) c only =
    omega (arith, kept-requeue_front p es (requeue e c) only, kept-requeue p c e only)

drain_lem :
    (n : ℕ) (queue : List AnalyticsEvent)
    → let (events, rest) = drain n queue in
      (events ++ rest ≡ queue) × (length events ≡ min n (length queue))
unfolding drain
drain_lem zero queue = (refl, omega arith)
drain_lem (suc n) [] = (refl, omega arith)
drain_lem (suc n) (e ∷ queue) =
    let (same, size) = drain_lem n queue in (ap (λ t. e ∷ t) same, omega (arith, size))

pub length-rest : (n : ℕ) (queue : List AnalyticsEvent) → length (drain n queue).1 ≤ length queue
unfolding drain
length-rest zero queue = omega arith
length-rest (suc n) [] = omega arith
length-rest (suc n) (e ∷ queue) = omega (arith, length-rest n queue)

-- What a batch takes is the front of the queue, in order: as many events as it asks for, or all.
pub drain_batch_lem :
    (n : ℕ) (c : Collector)
    → let (events, c') = drain_batch n c in
      (events ++ c'.queue ≡ c.queue) × (length events ≡ min n (length c.queue))
unfolding drain_batch
drain_batch_lem n c = drain_lem n c.queue

-- A batch that is put back while there is room goes behind the events that were collected since,
-- in its own order.
pub requeue_front_at_back :
    (events : List AnalyticsEvent) (c : Collector)
    → length c.queue + length events ≤ c.max_size
    → requeue_front events c ≡ record c { queue = c.queue ++ events }
unfolding requeue_front
requeue_front_at_back [] c room = ap (λ q. record c { queue = q }) (sym (append-nil c.queue))
requeue_front_at_back (e ∷ es) c room =
    let open_slot : requeue e c ≡ queued e c = unfold requeue in ground (arith, room) in
    rw open_slot (
      requeue_front_at_back es (queued e c) (omega (arith, room, length-append c.queue (e ∷ [])))
      ∙ ap (λ q. record c { queue = q }) (append_assoc c.queue (e ∷ []) es))
