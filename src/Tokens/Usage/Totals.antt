-- ===== src/Tokens/Usage/Totals.antt =====
-- How the usage records of backend/services/inference/token_accounting.py add up.
use ansuman_gpu_inference_se.Prelude.{ℤ, pos, ◌+ℤ◌, ◌≡◌, refl, Option, none, some, String, arith}
use ansuman_gpu_inference_se.Json.{Json, Fields, int, obj, get, to_int_or_zero}
use ansuman_gpu_inference_se.Io.{ok}
use ansuman_gpu_inference_se.Tokens.Estimate.{TokenEstimator}
use ansuman_gpu_inference_se.Tokens.Plan.{TokenPlan}
use ansuman_gpu_inference_se.Tokens.Usage.{
  usage_by, estimated_usage, reported_usage, usage_from_response, usage_from_stream_text,
  response_text, get_default,
}

abbrev pub HasUsage : Fields → Type 0
HasUsage response = (usage : Fields) × (get "usage" response ≡ some (obj usage))

usage_by-plain :
    (u : Option Json) (response : Fields) (plan : TokenPlan) (estimator : TokenEstimator)
    → ¬ ((usage : Fields) × (u ≡ some (obj usage)))
    → usage_by u response plan estimator ≡ ok (estimated_usage response plan estimator)
usage_by-plain none response plan estimator h = refl
usage_by-plain (some (obj usage)) response plan estimator h = absurd (h (usage, refl))
usage_by-plain (some _) response plan estimator h = refl

-- A response with no usage object never makes the accounting fail: the record then estimates the
-- assistant's text, counts the planned prompt, and its total is the sum of both.
pub usage_without_report :
    (response : Fields) (plan : TokenPlan) (estimator : TokenEstimator)
    → ¬ HasUsage response
    → usage_from_response response plan estimator
      ≡ ok (
          usage_from_stream_text
            (response_text "message" (get "choices" response))
            plan
            estimator
            "completed")
unfolding usage_from_response usage_from_stream_text
usage_without_report response plan estimator h =
    usage_by-plain (get "usage" response) response plan estimator h

int_reported :
    (k : String) (d n : ℤ) (fs : Fields)
    → get k fs ≡ some (int n)
    → to_int_or_zero (get_default k (int d) fs) ≡ ok n
unfolding to_int_or_zero
int_reported k d n fs e = ground (arith, e)

-- The integers that the upstream reports are taken as they are, whether or not they add up.
pub usage_as_reported :
    (response usage : Fields) (plan : TokenPlan) (estimator : TokenEstimator) (p c t : ℤ)
    → get "usage" response ≡ some (obj usage)
    → get "prompt_tokens" usage ≡ some (int p)
    → get "completion_tokens" usage ≡ some (int c)
    → get "total_tokens" usage ≡ some (int t)
    → usage_from_response response plan estimator
      ≡ ok (record {
        prompt_tokens = p;
        completion_tokens = c;
        total_tokens = t;
        status = "completed";
      })
unfolding usage_from_response reported_usage
usage_as_reported response usage plan estimator p c t u ep ec et = ground (
  arith,
  u,
  int_reported "prompt_tokens" plan.prompt_tokens p usage ep,
  int_reported "completion_tokens" (pos 0) c usage ec,
  int_reported "total_tokens" (p +ℤ c) t usage et,
)
