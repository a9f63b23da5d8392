-- ===== src/Observability/Sentry/Counts.antt =====
-- Calls that send a report to Sentry exactly where they answer with its id
-- (backend/services/observability/sentry.py), and how the operators of Io keep it.
use ansuman_gpu_inference_se.Prelude.{
  ℕ, ◌+◌, String, false, Option, none, some, ◌≡◌, ap, ◌∙◌, arith,
}
use ansuman_gpu_inference_se.Io.{
  app, error, cancelled, Result, ok, raised, Io, pure, ◌>>◌, try_except, finally, is_raised,
}
use ansuman_gpu_inference_se.Io.Keeps.{Keeps, Returns}

-- One where a report was accepted: Sentry then answers with its id.
abbrev pub accepted : Result (Option String) → ℕ
accepted (ok (some id)) = 1
accepted _ = 0

-- A call that sends one report if it answers with an id, and none otherwise.
module _ {W : Type 0} (sent : W → ℕ) where
  pub record Counts (m : Io W (Option String)) : Type 0 where
    pub counts : (w : W) → sent (m w).1 ≡ sent w + accepted (m w).0

  pub pure-Counts : Counts (pure none)
  pure-Counts = record { counts = λ w. omega arith }

  then_at :
      (k : Io W (Option String))
      → Counts k
      → (r : Result (Unit {0})) (w' : W) (n : ℕ) → sent w' ≡ n
      → let (a, v) = ((λ (u : W). (r, u)) >> k) w' in sent v ≡ n + accepted a
  then_at k h (ok _) w' n e = h.counts w' ∙ ap (λ m. m + accepted (k w').0) e
  then_at k h (raised x) w' n e = e ∙ omega arith

  pub then-Counts :
      {m : Io W (Unit {0})} {k : Io W (Option String)} → Keeps sent m → Counts k → Counts (m >> k)
  then-Counts {m} {k} h c = record {
    counts = λ w. then_at k c (m w).0 (m w).1 (sent w) (h.keeps w);
  }

  finally_at :
      (c : Result (Unit {0})) (r : Result (Option String)) (v : W) (n : ℕ)
      → is_raised c ≡ false
      → sent v ≡ n + accepted r
      → let (a, u) = finally (λ (w : W). (r, w)) (λ w. (c, w)) v in sent u ≡ n + accepted a
  finally_at (ok _) r v n h e = e
  finally_at (raised x) r v n h e = absurd (ground (arith, h))

  pub finally-Counts :
      {m : Io W (Option String)} {c : Io W (Unit {0})}
      → Counts m
      → Keeps sent c
      → Returns c
      → Counts (finally m c)
  finally-Counts {m} {c} h k t = record {
    counts = λ w.
        let v = (m w).1 in
        finally_at (c v).0 (m w).0 (c v).1 (sent w) (t.returns v) (k.keeps v ∙ h.counts w);
  }

  -- An exception of Sentry becomes the answer that nothing was sent.
  caught_at :
      (r : Result (Option String)) (v : W) (n : ℕ)
      → sent v ≡ n + accepted r
      → let (a, u) = try_except (λ (w : W). (r, w)) (λ _. pure none) v in sent u ≡ n + accepted a
  caught_at (ok a) v n e = e
  caught_at (raised (app x)) v n e = e
  caught_at (raised (error x)) v n e = e
  caught_at (raised cancelled) v n e = e

  pub caught-Counts : {m : Io W (Option String)} → Counts m → Counts (try_except m (λ _. pure none))
  caught-Counts {m} h = record { counts = λ w. caught_at (m w).0 (m w).1 (sent w) (h.counts w) }
