-- ===== src/Analytics/Collector/Accounts.antt =====
-- Where every event goes that is handed to the collector of
-- backend/services/analytics/event_collector.py, over any sequence of calls.
use ansuman_gpu_inference_se.Prelude.{
  ℕ, ◌+◌, ◌≤◌, ◌<◌, Bool, ◌≡◌, refl, ap, List, [], ◌∷◌, ◌++◌, length, length-append, arith,
}
use ansuman_gpu_inference_se.Analytics.Events.{AnalyticsEvent}
use ansuman_gpu_inference_se.Analytics.Collector.{
  Collector, collect, drain, drain_batch, requeue, requeue_front,
}
use ansuman_gpu_inference_se.Analytics.Collector.Kept.{
  count_by, count_by-append, kept, OnlyCritical, kept-collect, kept-requeue_front, drain_batch_lem,
  length-rest,
}

-- A call on the collector, or the first spool task running to its end.
pub data Call : Type 0 where
  collects : AnalyticsEvent → Call
  drains : ℕ → Call
  puts_back : List AnalyticsEvent → Call
  spools : Call

abbrev behind : List AnalyticsEvent → List AnalyticsEvent
behind [] = []
behind (e ∷ es) = es

abbrev first : List AnalyticsEvent → List AnalyticsEvent
first [] = []
first (e ∷ es) = e ∷ []

-- The events that a call hands out: to the flusher, or to the spool.
abbrev pub perform : Call → Collector → List AnalyticsEvent × Collector
perform (collects event) c = ([], (collect event c).1)
perform (drains n) c = drain_batch n c
perform (puts_back events) c = ([], requeue_front events c)
perform spools c = (first c.tasks, record c { tasks = behind c.tasks })

abbrev pub perform_all : List Call → Collector → List AnalyticsEvent × Collector
perform_all [] c = ([], c)
perform_all (call ∷ calls) c =
    let (out, c') = perform call c in let (outs, c'') = perform_all calls c' in (out ++ outs, c'')

-- The events that calls hand to the collector.
abbrev given_by : Call → List AnalyticsEvent
given_by (collects event) = event ∷ []
given_by (puts_back events) = events
given_by _ = []

abbrev pub given : List Call → List AnalyticsEvent
given [] = []
given (call ∷ calls) = given_by call ++ given calls

-- The queue is within its bound, where it has one.
abbrev pub IsBounded : Collector → Type 0
IsBounded c = 0 < c.max_size → length c.queue ≤ c.max_size

requeue-IsBounded : (e : AnalyticsEvent) (c : Collector) → IsBounded c → IsBounded (requeue e c)
unfolding requeue
requeue-IsBounded e c h = ground (arith, h, length-append c.queue (e ∷ []))

requeue_front-IsBounded :
    (es : List AnalyticsEvent) (c : Collector) → IsBounded c → IsBounded (requeue_front es c)
unfolding requeue_front
requeue_front-IsBounded [] c h = h
requeue_front-IsBounded (e ∷ es) c h =
    requeue_front-IsBounded es (requeue e c) (requeue-IsBounded e c h)

perform-IsBounded : (call : Call) (c : Collector) → IsBounded c → IsBounded (perform call c).1
perform-IsBounded (collects e) c h =
    unfold collect in ground (arith, h, length-append c.queue (e ∷ []))
perform-IsBounded (drains n) c h = unfold drain_batch in ground (arith, h, length-rest n c.queue)
perform-IsBounded (puts_back events) c h = requeue_front-IsBounded events c h
perform-IsBounded spools c h = h

-- All that is queued or waits for the spool, and the events that were counted as dropped.
abbrev pub total : Collector → ℕ
total c = length c.queue + length c.tasks + c.dropped_non_critical

total-collect : (e : AnalyticsEvent) (c : Collector) → total (collect e c).1 ≡ total c + 1
unfolding collect
total-collect e c = ground (arith, length-append c.queue (e ∷ []), length-append c.tasks (e ∷ []))

total-requeue : (e : AnalyticsEvent) (c : Collector) → total (requeue e c) ≡ total c + 1
unfolding requeue
total-requeue e c = ground (arith, length-append c.queue (e ∷ []), length-append c.tasks (e ∷ []))

total-requeue_front :
    (es : List AnalyticsEvent) (c : Collector) → total (requeue_front es c) ≡ total c + length es
unfolding requeue_front
total-requeue_front [] c = omega arith
total-requeue_front (e ∷ es) c =
    omega (arith, total-requeue_front es (requeue e c), total-requeue e c)

length-first :
    (tasks : List AnalyticsEvent) → length (behind tasks) + length (first tasks) ≡ length tasks
length-first [] = omega arith
length-first (e ∷ es) = omega arith

count_by-first :
    (p : AnalyticsEvent → Bool) (tasks : List AnalyticsEvent)
    → count_by p (behind tasks) + count_by p (first tasks) ≡ count_by p tasks
count_by-first p [] = omega arith
count_by-first p (e ∷ es) = omega arith

total-perform :
    (call : Call) (c : Collector)
    → total (perform call c).1 + length (perform call c).0 ≡ total c + length (given_by call)
unfolding drain_batch
total-perform (collects e) c = omega (arith, total-collect e c)
total-perform (drains n) c =
    let (events, rest) = drain n c.queue in
    omega (arith, ap length (drain_batch_lem n c).0, length-append events rest)
total-perform (puts_back events) c = omega (arith, total-requeue_front events c)
total-perform spools c = omega (arith, length-first c.tasks)

kept-perform :
    (p : AnalyticsEvent → Bool) (call : Call) (c : Collector)
    → OnlyCritical p
    → kept p (perform call c).1 + count_by p (perform call c).0
      ≡ kept p c + count_by p (given_by call)
unfolding drain_batch
kept-perform p (collects e) c only = omega (arith, kept-collect p c e only)
kept-perform p (drains n) c only =
    let (events, rest) = drain n c.queue in
    omega (arith, ap (count_by p) (drain_batch_lem n c).0, count_by-append p events rest)
kept-perform p (puts_back events) c only = omega (arith, kept-requeue_front p events c only)
kept-perform p spools c only = omega (arith, count_by-first p c.tasks)

-- Over any sequence of calls no event is lost: as many as were given are queued, wait for the spool, were
-- handed out or are counted as dropped. Of any critical events none is dropped, and a queue that
-- starts within its bound stays there.
pub perform_all_accounts :
    (p : AnalyticsEvent → Bool) (calls : List Call) (c : Collector)
    → OnlyCritical p
    → IsBounded c
    → let (out, c') = perform_all calls c in
      (total c' + length out ≡ total c + length (given calls))
      × (kept p c' + count_by p out ≡ kept p c + count_by p (given calls))
      × IsBounded c'
perform_all_accounts p [] c only h = (refl, refl, h)
perform_all_accounts p (call ∷ calls) c only h =
    let (out, c') = perform call c in
    let (outs, _) = perform_all calls c' in
    let (all, critical, bounded) =
      perform_all_accounts p calls c' only (perform-IsBounded call c h) in
    (
      omega (
        arith,
        all,
        total-perform call c,
        length-append out outs,
        length-append (given_by call) (given calls),
      ),
      omega (
        arith,
        critical,
        kept-perform p call c only,
        count_by-append p out outs,
        count_by-append p (given_by call) (given calls),
      ),
      bounded,
    )
