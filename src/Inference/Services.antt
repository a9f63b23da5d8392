-- ===== src/Inference/Services.antt =====
-- What backend/api/routes/chat_completions.py and backend/services/batch/batch_worker.py call: the
-- admission and audit services, the upstream, and the things that are only told what happened.
use ansuman_gpu_inference_se.Prelude.{
  ℕ, suc, ◌-◌, ℤ, String, Bool, false, Option, none, some, List, [], ◌∷◌, ◌≡◌, if◌then◌else◌,
}
use ansuman_gpu_inference_se.Text.{codes}
use ansuman_gpu_inference_se.Json.{Fields, Items, end, field, nil, cons, str, bool, int, arr, obj}
use ansuman_gpu_inference_se.Io.{ok, is_raised, Io, pure, ◌>>◌, try_except}
use ansuman_gpu_inference_se.Io.Keeps.{Keeps, pure-Keeps, then-Keeps, try_except-Keeps}
use ansuman_gpu_inference_se.Auth.Keys.{AuthContext}
use ansuman_gpu_inference_se.Tokens.Estimate.{ChatMessage}
use ansuman_gpu_inference_se.Tokens.Plan.{ChatCompletionRequest}
use ansuman_gpu_inference_se.Tokens.Usage.{UsageRecord}
use ansuman_gpu_inference_se.Analytics.Events.{UsageEvent}

-- The protocol `AdmissionController` with the methods of the leases `L` that it gives.
pub record AdmissionController (W L : Type 0) : Type 0 where
  pub admit : AuthContext → ℤ → Io W L
  pub finalize_tokens : L → ℤ → Bool → Io W (Unit {0})
  pub release : L → Io W (Unit {0})

-- `held` counts the leases that were given and not released yet.
pub record AdmissionLaws {W L : Type 0} (admission : AdmissionController W L) (held : W → ℕ)
    : Type 0 where
  pub held-admit :
      (c : AuthContext) (n : ℤ) (w : W)
      → let (r, w') = admission.admit c n w in
        held w' ≡ (if is_raised r then held w else suc (held w))
  pub held-release : (l : L) (w : W) → held (admission.release l w).1 ≡ held w - 1
  pub finalize_tokens-Keeps :
      (l : L) (n : ℤ) (b : Bool) → Keeps held (admission.finalize_tokens l n b)

-- `normalize_chat_completion_payload` of backend/services/vllm/payload_mapper.py, as a dict: the
-- order of its keys is not the program's.
abbrev message_object : ChatMessage → Fields
message_object m = field "role" (str m.role) (field "content" (str m.content) end)

abbrev message_objects : List ChatMessage → Items
message_objects [] = nil
message_objects (m ∷ ms) = cons (obj (message_object m)) (message_objects ms)

abbrev pub with_max_tokens : Option ℤ → Fields → Fields
with_max_tokens none fs = fs
with_max_tokens (some n) fs = field "max_tokens" (int n) fs

unfoldable pub normalize_chat_completion_payload : ChatCompletionRequest → Fields
normalize_chat_completion_payload request = field "model" (str (codes request.model)) (
    field "messages" (arr (message_objects request.messages))
      (field "stream" (bool request.stream) (with_max_tokens request.max_tokens request.others)))

-- `_emit_usage_analytics` and `_emit_usage_event`: what the collector raises is dropped.
abbrev pub usage_event_of :
    ℕ → AuthContext → String → String → UsageRecord → Option ℤ → Option String → UsageEvent
usage_event_of now context request_id model usage latency_ms error_code = record {
  event_time = now;
  request_id = request_id;
  user_id = context.user_id;
  project_id = context.project_id;
  api_key_id = context.api_key_id;
  model = model;
  status = usage.status;
  prompt_tokens = usage.prompt_tokens;
  completion_tokens = usage.completion_tokens;
  total_tokens = usage.total_tokens;
  latency_ms = latency_ms;
  error_code = error_code;
  critical = false;
}

module _ {W : Type 0} (collect : UsageEvent → Io W Bool) where
  unfoldable pub emit_usage : UsageEvent → Io W (Unit {0})
  emit_usage event = try_except (collect event >> pure tt) (λ _. pure tt)

  pub emit_usage-Keeps :
      (measure : W → ℕ)
      → ((e : UsageEvent) → Keeps measure (collect e))
      → (event : UsageEvent) → Keeps measure (emit_usage event)
  unfolding emit_usage
  emit_usage-Keeps measure h event =
      try_except-Keeps measure (then-Keeps measure (h event) (pure-Keeps measure tt))
        (λ _. pure-Keeps measure tt)

-- A call that only tells something, and neither answers nor raises.
abbrev pub tell : {W : Type 0} → (W → W) → Io W (Unit {0})
tell f w = (ok tt, f w)

pub tell-Keeps :
    {W M : Type 0} (measure : W → M) (f : W → W)
    → ((w : W) → measure (f w) ≡ measure w)
    → Keeps measure (tell f)
tell-Keeps measure f h = record { keeps = h }
