-- ===== src/Tokens/Plan.antt =====
-- `build_token_plan` of backend/services/inference/token_accounting.py: the token limits that a
-- request meets before it is admitted.
pub mod Verdicts
use ansuman_gpu_inference_se.Prelude.{
  ℤ, pos, ◌+ℤ◌, ltb_ℤ, eqb_ℤ, String, Bool, Option, none, some, List, if◌then◌else◌,
}
use ansuman_gpu_inference_se.Json.{Fields}
use ansuman_gpu_inference_se.Io.{AppError, app, Result, ok, raised}
use ansuman_gpu_inference_se.Tokens.Estimate.{ChatMessage, TokenEstimator, estimate_prompt_tokens}

-- `ChatCompletionRequest`; `others` are the fields that are only passed on (temperature, top_p, stop,
-- user, metadata, and any extra field).
pub record ChatCompletionRequest : Type 0 where
  pub model : String
  pub messages : List ChatMessage
  pub stream : Bool
  pub max_tokens : Option ℤ
  pub others : Fields

pub record TokenPlan : Type 0 where
  pub prompt_tokens : ℤ
  pub max_completion_tokens : ℤ
  pub estimated_total_tokens : ℤ

abbrev pub max_output_tokens_exceeded : AppError
max_output_tokens_exceeded = record {
  message = "Requested max_tokens exceeds the configured output token limit";
  code = "max_output_tokens_exceeded";
  status_code = 400;
  type = "invalid_request_error";
  param = some "max_tokens";
}

abbrev pub max_input_tokens_exceeded : AppError
max_input_tokens_exceeded = record {
  message = "Prompt exceeds the configured input token limit";
  code = "max_input_tokens_exceeded";
  status_code = 413;
  type = "invalid_request_error";
  param = some "messages";
}

abbrev pub max_total_tokens_exceeded : AppError
max_total_tokens_exceeded = record {
  message = "Request exceeds the configured total token limit";
  code = "max_total_tokens_exceeded";
  status_code = 413;
  type = "invalid_request_error";
  param = some "max_tokens";
}

-- `request.max_tokens or max_output_tokens`
abbrev pub requested_tokens : Option ℤ → ℤ → ℤ
requested_tokens none limit = limit
requested_tokens (some n) limit = if eqb_ℤ n (pos 0) then limit else n

-- The limits that `Settings` gives.
pub record Limits : Type 0 where
  pub max_input_tokens : ℤ
  pub max_output_tokens : ℤ
  pub max_total_tokens : ℤ

unfoldable pub build_token_plan : ChatCompletionRequest → TokenEstimator → Limits → Result TokenPlan
build_token_plan request estimator limits =
    let prompt_tokens = estimate_prompt_tokens request.messages estimator in
    let requested = requested_tokens request.max_tokens limits.max_output_tokens in
    let estimated_total = prompt_tokens +ℤ requested in
    if ltb_ℤ limits.max_output_tokens requested
    then raised (app max_output_tokens_exceeded)
    else if ltb_ℤ limits.max_input_tokens prompt_tokens
    then raised (app max_input_tokens_exceeded)
    else if ltb_ℤ limits.max_total_tokens estimated_total
    then raised (app max_total_tokens_exceeded)
    else ok (record {
      prompt_tokens = prompt_tokens;
      max_completion_tokens = requested;
      estimated_total_tokens = estimated_total;
    })
