-- ===== src/Inference/Planned.antt =====
-- The token plan of backend/services/inference/token_accounting.py beside the payload that
-- backend/services/vllm/payload_mapper.py sends.
use ansuman_gpu_inference_se.Prelude.{
  ℤ, pos, ◌+ℤ◌, ◌<ℤ◌, ◌≤ℤ◌, ◌≡◌, sym, ap, ◌↔◌, Option, none, some, arith,
}
use ansuman_gpu_inference_se.Json.{Json, Fields, int, get}
use ansuman_gpu_inference_se.Io.{ok}
use ansuman_gpu_inference_se.Tokens.Estimate.{TokenEstimator}
use ansuman_gpu_inference_se.Tokens.Estimate.Counts.{sum_tokens, estimate-eq-sum}
use ansuman_gpu_inference_se.Tokens.Plan.{
  ChatCompletionRequest, TokenPlan, Limits, build_token_plan, requested_tokens,
}
use ansuman_gpu_inference_se.Tokens.Plan.Verdicts.{build_token_plan_iff}
use ansuman_gpu_inference_se.Inference.Services.{with_max_tokens, normalize_chat_completion_payload}

-- `gt=0` of the schema
abbrev pub IsPositive : Option ℤ → Type 0
IsPositive none = Unit {0}
IsPositive (some n) = pos 0 <ℤ n

-- The output that a payload with this `max_tokens` asks for, or `default` where it names none.
abbrev pub allowed_output : Option Json → ℤ → ℤ
allowed_output (some (int n)) default = n
allowed_output _ default = default

-- The number of the payload is that of the request.
allowed_output-fields :
    (asked : Option ℤ) (others : Fields) (default : ℤ)
    → IsPositive asked
    → get "max_tokens" others ≡ none
    → requested_tokens asked default
      ≡ allowed_output (get "max_tokens" (with_max_tokens asked others)) default
unfolding get
allowed_output-fields none others default h other = ap (λ o. allowed_output o default) (sym other)
allowed_output-fields (some n) others default h other = ground (arith, h)

module _ (request : ChatCompletionRequest) (estimator : TokenEstimator) (limits : Limits) where
  allowed_output-payload :
      IsPositive request.max_tokens
      → get "max_tokens" request.others ≡ none
      → requested_tokens request.max_tokens limits.max_output_tokens
        ≡ allowed_output
            (get "max_tokens" (normalize_chat_completion_payload request))
            limits.max_output_tokens
  unfolding normalize_chat_completion_payload get
  allowed_output-payload h other =
      allowed_output-fields request.max_tokens request.others limits.max_output_tokens h other

  -- A request whose `max_tokens` is positive or left out, and that has no other field of that name, has a
  -- plan exactly when the sum over its messages, the output that the payload for the upstream asks for,
  -- and both together are within the three limits; the plan then holds these numbers. A payload that
  -- names no `max_tokens` is planned with the limit on the output.
  pub build_token_plan_covers :
      (plan : TokenPlan)
      → IsPositive request.max_tokens
      → get "max_tokens" request.others ≡ none
      → let prompt = sum_tokens estimator request.messages +ℤ pos 2 in
        let output =
          allowed_output
            (get "max_tokens" (normalize_chat_completion_payload request))
            limits.max_output_tokens in
        (build_token_plan request estimator limits ≡ ok plan) ↔ (
          (plan ≡ record {
            prompt_tokens = prompt;
            max_completion_tokens = output;
            estimated_total_tokens = prompt +ℤ output;
          })
          × (output ≤ℤ limits.max_output_tokens)
          × (prompt ≤ℤ limits.max_input_tokens)
          × (prompt +ℤ output ≤ℤ limits.max_total_tokens))
  build_token_plan_covers plan positive other =
      rw (← allowed_output-payload positive other, ← estimate-eq-sum estimator request.messages)
        (build_token_plan_iff request estimator limits plan)
