-- ===== src/Analytics/Flusher/Delivery.antt =====
-- What a flush of backend/services/analytics/clickhouse_flusher.py delivers.
use ansuman_gpu_inference_se.Prelude.{
  ℕ, zero, suc, ◌+◌, ◌*◌, sym, ◌∙◌, String, Bool, true, false, ◌≡◌, refl, ap, List, [], ◌∷◌, arith,
  inl, inr,
}
use ansuman_gpu_inference_se.Io.{Exc, app, error, cancelled, Result, ok, raised, Io, Result-cases}
use ansuman_gpu_inference_se.Analytics.Events.{AnalyticsEvent, AnalyticsTable}
use ansuman_gpu_inference_se.Analytics.Collector.{drain_batch, requeue_front}
use ansuman_gpu_inference_se.Analytics.Collector.Kept.{
  count_by, kept, OnlyCritical, kept-requeue_front, drain_batch_lem, count_by-append,
}
use ansuman_gpu_inference_se.Analytics.Flusher.{
  Rows, Flusher, insert_events, attempts, insert_with_retry, settle, flush_events, flush_once,
}

module _ {W : Type 0} (insert : AnalyticsTable → Rows → List String → Io W (Unit {0}))
    (sleep : ℕ → Io W (Unit {0})) (report : Exc → W → W) where
  abbrev pub once : List AnalyticsEvent → Io W (Unit {0})
  once = insert_events insert sleep report

  abbrev pub retry : ℕ → ℕ → List AnalyticsEvent → Io W (Unit {0})
  retry = attempts insert sleep report

  -- The world in which the next attempt runs.
  abbrev after_sleep : ℕ → List AnalyticsEvent → W → W
  after_sleep delay events w = (sleep delay (once events w).1).1

  pub attempts_now :
      (left delay : ℕ) (events : List AnalyticsEvent) (w : W)
      → (once events w).0 ≡ ok tt
      → retry (suc left) delay events w ≡ once events w
  unfolding attempts
  attempts_now left delay events w e = ground (arith, e)

  attempts_last :
      (delay : ℕ) (events : List AnalyticsEvent) (w : W) {e : Exc}
      → (once events w).0 ≡ raised e
      → (retry 1 delay events w).0 ≡ raised e
  unfolding attempts
  attempts_last delay events w {e} h = ground (arith, h)

  attempts_later :
      (left delay : ℕ) (events : List AnalyticsEvent) (w : W) {e : Exc}
      → (once events w).0 ≡ raised e
      → (retry (suc (suc left)) delay events w).0 ≡ ok tt
      → retry (suc (suc left)) delay events w
        ≡ retry (suc left) (delay * 2) events (after_sleep delay events w)
  unfolding attempts
  attempts_later left delay events w {e} h done = ground (arith, h, done)

  attempts_ok :
      (left delay : ℕ) (events : List AnalyticsEvent) (w : W)
      → (retry (suc left) delay events w).0 ≡ ok tt
      → (w1 : W) × (once events w1 ≡ (ok tt, (retry (suc left) delay events w).1))
  attempts_ok zero delay events w h = elim (Result-cases (once events w).0) [
    | inl (u, e) ↦ (w, ground (arith, attempts_now 0 delay events w e, e))
    | inr (x, e) ↦ absurd (ground (arith, attempts_last delay events w e, h))
  ]
  attempts_ok (suc left) delay events w h = elim (Result-cases (once events w).0) [
    | inl (u, e) ↦ (w, ground (arith, attempts_now (suc left) delay events w e, e))
    | inr (x, e) ↦
        let same = attempts_later left delay events w e h in
        let (w1, done) =
          attempts_ok left (delay * 2) events (after_sleep delay events w) (rw (sym same) h) in
        (w1, rw same done)
  ]

  settle_lem :
      (events : List AnalyticsEvent) (f : Flusher) (r : Result (Unit {0})) (w : W)
      → let (q, (f', w')) = settle insert sleep report events f (r, w) in
        (q ≡ ok true → (r ≡ ok tt) × (f' ≡ f) × (w' ≡ w))
        × (q ≡ ok false → f'.collector ≡ requeue_front events f.collector)
        × ((e : Exc) → q ≡ raised e → (e ≡ cancelled) × (f' ≡ f))
  settle_lem events f (ok tt) w =
      (λ _. (refl, refl, refl), λ h. ground (arith, h), λ e h. ground (arith, h))
  settle_lem events f (raised (app e)) w =
      (λ h. ground (arith, h), λ _. refl, λ e h. ground (arith, h))
  settle_lem events f (raised (error e)) w =
      (λ h. ground (arith, h), λ _. refl, λ e h. ground (arith, h))
  settle_lem events f (raised cancelled) w =
      (λ h. ground (arith, h), λ h. ground (arith, h), λ e h. (ground (arith, h), refl))

  flush_events_lem :
      (events : List AnalyticsEvent) (p : AnalyticsEvent → Bool) (retries : ℕ) (f : Flusher) (w : W)
      → OnlyCritical p
      → let (q, (f', w')) = flush_events insert sleep report (suc retries) events f w in
        (q ≡ ok true → ((w1 : W) × (once events w1 ≡ (ok tt, w'))) × (f'.collector ≡ f.collector))
        × (q ≡ ok false → kept p f'.collector ≡ kept p f.collector + count_by p events)
        × ((e : Exc) → q ≡ raised e → (e ≡ cancelled) × (f'.collector ≡ f.collector))
  unfolding insert_with_retry insert_events
  flush_events_lem [] p retries f w only =
      (λ _. ((w, refl), refl), λ h. ground (arith, h), λ e h. ground (arith, h))
  flush_events_lem (x ∷ xs) p retries f w only =
      let events = x ∷ xs in
      let (r, w') = insert_with_retry insert sleep report (suc retries) events w in
      let (done, undone, lost) = settle_lem events f r w' in
      (
        (λ h.
            let (got, same, world) = done h in
            let (w1, wrote) = attempts_ok retries 1 events w got in
            ((w1, wrote ∙ ap (λ v. (ok tt, v)) (sym world)), ap (λ g. g.collector) same)),
        (λ h. rw (undone h) (kept-requeue_front p events f.collector only)),
        (λ e h. let (why, same) = lost e h in (why, ap (λ g. g.collector) same)),
      )

  -- A flush that reports success has written the whole batch in one attempt, and takes it from the
  -- queue. One that reports failure has lost no critical event: all that were queued or on their way
  -- to the spool still are. Only a cancellation ends it otherwise, and that loses the batch.
  pub flush_once_delivers :
      (p : AnalyticsEvent → Bool) (batch_size retries : ℕ) (f : Flusher) (w : W)
      → OnlyCritical p
      → let (events, drained) = drain_batch batch_size f.collector in
        let (q, (f', w')) = flush_once insert sleep report batch_size (suc retries) (f, w) in
        (q ≡ ok true → ((w1 : W) × (once events w1 ≡ (ok tt, w'))) × (f'.collector ≡ drained))
        × (q ≡ ok false → kept p f'.collector ≡ kept p f.collector)
        × ((e : Exc) → q ≡ raised e → (e ≡ cancelled) × (f'.collector ≡ drained))
  unfolding flush_once insert_with_retry
  flush_once_delivers p batch_size retries f w only =
      let (events, drained) = drain_batch batch_size f.collector in
      let (ends, fails, lost) =
        flush_events_lem events p retries (record f { collector = drained }) w only in
      let (parts, _) = drain_batch_lem batch_size f.collector in
      let split = ap (count_by p) parts in
      (
        ends,
        (λ h.
            fails h
            ∙ (unfold drain_batch in omega (arith, split, count_by-append p events drained.queue))),
        lost,
      )
