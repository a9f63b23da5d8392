-- ===== src/Batch/Job/States.antt =====
-- The job states as a diagram, against `can_transition`.
use ansuman_gpu_inference_se.Prelude.{ℕ, ◌<◌, ◌≡◌, ◌↔◌, refl, true, false, arith, ◌⊎◌}
use ansuman_gpu_inference_se.Batch.Job.{
  Status, queued, running, failed, is_terminal, can_transition,
}

-- How far a job has come.
abbrev progress : Status → ℕ
progress queued = 0
progress running = 1
progress _ = 2

-- What a sequence of allowed transitions reaches.
pub data Reaches : Status → Status → Type 0 where
  here : {s : Status} → Reaches s s
  then_to : {s t u : Status} → Reaches s t → can_transition t u ≡ true → Reaches s u

pub Reaches-trans : {s t u : Status} → Reaches s t → Reaches t u → Reaches s u
Reaches-trans r here = r
Reaches-trans r (then_to q h) = then_to (Reaches-trans r q) h

step_progress : (s t : Status) → can_transition s t ≡ true → progress s < progress t
unfolding can_transition
step_progress s t h = ground arith

Reaches-progress : {s t : Status} → Reaches s t → (s ≡ t) ⊎ (progress s < progress t)
Reaches-progress here = ground arith
Reaches-progress (then_to {t = t} {u = u} r h) =
    ground (arith, Reaches-progress r, step_progress t u h)

-- The table of allowed transitions leads from no state back to a state that was left, and exactly the terminal states have no way out.
pub can_transition_acyclic :
    (s t : Status)
    → (Reaches s t → Reaches t s → s ≡ t)
      × ((is_terminal s ≡ true) ↔ ((u : Status) → can_transition s u ≡ false))
unfolding can_transition
can_transition_acyclic s t = (
  λ r q. ground (arith, Reaches-progress r, Reaches-progress q),
  (λ h u. ground arith, terminal s),
)
  where
    terminal : (s : Status) → ((u : Status) → can_transition s u ≡ false) → is_terminal s ≡ true
    terminal queued all = cc (all running)
    terminal running all = cc (all failed)
    terminal _ all = refl
