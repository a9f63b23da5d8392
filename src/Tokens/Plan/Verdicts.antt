-- ===== src/Tokens/Plan/Verdicts.antt =====
-- When `build_token_plan` of backend/services/inference/token_accounting.py accepts a request.
use ansuman_gpu_inference_se.Prelude.{◌+ℤ◌, ◌≤ℤ◌, ◌<ℤ◌, ◌≡◌, ◌↔◌, arith, ◌⊎◌}
use ansuman_gpu_inference_se.Io.{app, Exc, ok, raised}
use ansuman_gpu_inference_se.Tokens.Estimate.{TokenEstimator, estimate_prompt_tokens}
use ansuman_gpu_inference_se.Tokens.Plan.{
  ChatCompletionRequest, TokenPlan, Limits, build_token_plan, requested_tokens,
  max_output_tokens_exceeded, max_input_tokens_exceeded, max_total_tokens_exceeded,
}

module _ (request : ChatCompletionRequest) (estimator : TokenEstimator) (limits : Limits) where
  -- A plan is made exactly when the requested output, the prompt and their sum are within the three
  -- limits, and then it holds these three numbers.
  pub build_token_plan_iff :
      (plan : TokenPlan)
      → (build_token_plan request estimator limits ≡ ok plan) ↔ (
          (plan ≡ record {
            prompt_tokens = estimate_prompt_tokens request.messages estimator;
            max_completion_tokens = requested_tokens request.max_tokens limits.max_output_tokens;
            estimated_total_tokens =
                estimate_prompt_tokens request.messages estimator
                +ℤ requested_tokens request.max_tokens limits.max_output_tokens;
          })
          × (requested_tokens request.max_tokens limits.max_output_tokens
              ≤ℤ limits.max_output_tokens)
          × (estimate_prompt_tokens request.messages estimator ≤ℤ limits.max_input_tokens)
          × (estimate_prompt_tokens request.messages estimator
                +ℤ requested_tokens request.max_tokens limits.max_output_tokens
              ≤ℤ limits.max_total_tokens))
  unfolding build_token_plan
  build_token_plan_iff plan = (λ h. ground arith, λ h. ground arith)

  -- A refusal is one of three errors: the output limit is tested first, then the input limit, and
  -- the total limit only for a request that meets both.
  pub build_token_plan_refusal :
      (e : Exc)
      → build_token_plan request estimator limits ≡ raised e
      → ((e ≡ app max_output_tokens_exceeded)
          × (limits.max_output_tokens
              <ℤ requested_tokens request.max_tokens limits.max_output_tokens))
        ⊎ ((e ≡ app max_input_tokens_exceeded)
            × (requested_tokens request.max_tokens limits.max_output_tokens
                ≤ℤ limits.max_output_tokens)
            × (limits.max_input_tokens <ℤ estimate_prompt_tokens request.messages estimator))
        ⊎ ((e ≡ app max_total_tokens_exceeded)
            × (requested_tokens request.max_tokens limits.max_output_tokens
                ≤ℤ limits.max_output_tokens)
            × (estimate_prompt_tokens request.messages estimator ≤ℤ limits.max_input_tokens)
            × (limits.max_total_tokens
                <ℤ estimate_prompt_tokens request.messages estimator
                  +ℤ requested_tokens request.max_tokens limits.max_output_tokens))
  unfolding build_token_plan
  build_token_plan_refusal e h = ground arith
