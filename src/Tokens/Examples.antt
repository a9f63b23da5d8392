-- ===== src/Tokens/Examples.antt =====
-- Requests and responses, and the theorems on token accounting at them.
use ansuman_gpu_inference_se.Prelude.{
  ℕ, ◌*◌, ◌+◌, ◌≤◌, ℤ, pos, ◌+ℤ◌, ◌≤ℤ◌, ◌<ℤ◌, ◌≡◌, refl, ◌⊎◌, false, some, List, [], ◌∷◌, ◌++◌,
  length, arith,
}
use ansuman_gpu_inference_se.Text.{Text, codes, strip}
use ansuman_gpu_inference_se.Json.{Fields, end, field, int, obj, get}
use ansuman_gpu_inference_se.Io.{app, ok}
use ansuman_gpu_inference_se.Tokens.Estimate.{ChatMessage, count_text, estimate_prompt_tokens}
use ansuman_gpu_inference_se.Tokens.Estimate.Counts.{count_text_quarter, estimate-append}
use ansuman_gpu_inference_se.Tokens.Plan.{
  ChatCompletionRequest, TokenPlan, Limits, build_token_plan, requested_tokens,
  max_output_tokens_exceeded, max_input_tokens_exceeded, max_total_tokens_exceeded,
}
use ansuman_gpu_inference_se.Tokens.Plan.Verdicts.{build_token_plan_refusal}
use ansuman_gpu_inference_se.Tokens.Usage.{
  usage_from_response, usage_from_stream_text, response_text,
}
use ansuman_gpu_inference_se.Tokens.Usage.Totals.{HasUsage, usage_without_report, usage_as_reported}

abbrev hello : List ChatMessage
hello = record { role = codes "user"; content = codes "hi" } ∷ []

abbrev one_each : Text → ℤ
one_each t = pos 1

abbrev request : ChatCompletionRequest
request = record {
  model = "llama";
  messages = hello;
  stream = false;
  max_tokens = some (pos 10);
  others = end;
}

abbrev limits : Limits
limits = record {
  max_input_tokens = pos 100;
  max_output_tokens = pos 100;
  max_total_tokens = pos 150;
}

abbrev tight : Limits
tight = record { max_input_tokens = pos 100; max_output_tokens = pos 4; max_total_tokens = pos 150 }

abbrev plan : TokenPlan
plan = record {
  prompt_tokens = pos 8;
  max_completion_tokens = pos 10;
  estimated_total_tokens = pos 18;
}

build_token_plan_refusal_example :
    ((app max_output_tokens_exceeded ≡ app max_output_tokens_exceeded)
      × (tight.max_output_tokens <ℤ requested_tokens request.max_tokens tight.max_output_tokens))
    ⊎ ((app max_output_tokens_exceeded ≡ app max_input_tokens_exceeded)
        × (requested_tokens request.max_tokens tight.max_output_tokens ≤ℤ tight.max_output_tokens)
        × (tight.max_input_tokens <ℤ estimate_prompt_tokens request.messages one_each))
    ⊎ ((app max_output_tokens_exceeded ≡ app max_total_tokens_exceeded)
        × (requested_tokens request.max_tokens tight.max_output_tokens ≤ℤ tight.max_output_tokens)
        × (estimate_prompt_tokens request.messages one_each ≤ℤ tight.max_input_tokens)
        × (tight.max_total_tokens
            <ℤ estimate_prompt_tokens request.messages one_each
              +ℤ requested_tokens request.max_tokens tight.max_output_tokens))
unfolding build_token_plan estimate_prompt_tokens ◌+ℤ◌
build_token_plan_refusal_example =
    build_token_plan_refusal request one_each tight (app max_output_tokens_exceeded) refl

count_text_quarter_example :
    (n : ℕ) × (count_text (codes "  hello ") ≡ pos n)
    × (length (strip (codes "  hello ")) ≤ 4 * n)
    × (4 * n ≤ length (strip (codes "  hello ")) + 3)
count_text_quarter_example = count_text_quarter (codes "  hello ")

estimate-append_example :
    estimate_prompt_tokens (hello ++ hello) one_each +ℤ pos 2
    ≡ estimate_prompt_tokens hello one_each +ℤ estimate_prompt_tokens hello one_each
estimate-append_example = estimate-append one_each hello hello

no_report : ¬ HasUsage end
unfolding get
no_report (usage, e) = ground (arith, e)

usage_without_report_example :
    usage_from_response end plan one_each
    ≡ ok (
        usage_from_stream_text
          (response_text "message" (get "choices" end))
          plan
          one_each
          "completed")
usage_without_report_example = usage_without_report end plan one_each no_report

abbrev usage : Fields
usage =
    field "prompt_tokens" (int (pos 3))
      (field "completion_tokens" (int (pos 4)) (field "total_tokens" (int (pos 9)) end))

usage_as_reported_example :
    usage_from_response (field "usage" (obj usage) end) plan one_each
    ≡ ok (record {
      prompt_tokens = pos 3;
      completion_tokens = pos 4;
      total_tokens = pos 9;
      status = "completed";
    })
unfolding get
usage_as_reported_example =
    usage_as_reported (field "usage" (obj usage) end) usage plan one_each (pos 3) (pos 4) (pos 9)
      refl refl refl refl
