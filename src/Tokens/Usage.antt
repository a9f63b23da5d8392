-- ===== src/Tokens/Usage.antt =====
-- Usage of a finished request: `usage_from_response`, `stream_delta_text` and
-- `usage_from_stream_text` of backend/services/inference/token_accounting.py.
pub mod Totals
use ansuman_gpu_inference_se.Prelude.{
  ℤ, pos, ◌+ℤ◌, String, Bool, Option, none, some, List, [], ◌∷◌, ◌++◌, not, if◌then◌else◌,
}
use ansuman_gpu_inference_se.Text.{Text, codes, starts_with, remove_prefix, strip, eqb_text}
use ansuman_gpu_inference_se.Json.{
  Json, Items, Fields, int, str, arr, obj, nil, cons, get, to_int_or_zero,
}
use ansuman_gpu_inference_se.Io.{Exc, error, Result, ok, raised}
use ansuman_gpu_inference_se.Tokens.Estimate.{TokenEstimator}
use ansuman_gpu_inference_se.Tokens.Plan.{TokenPlan}

pub record UsageRecord : Type 0 where
  pub prompt_tokens : ℤ
  pub completion_tokens : ℤ
  pub total_tokens : ℤ
  pub status : String

-- `d.get(k, default)`
abbrev pub get_default : String → Json → Fields → Json
get_default k d fs = elim (get k fs) [ none ↦ d | some v ↦ v ]

infixl 5 ◌then_ok◌
abbrev pub ◌then_ok◌ : {A B : Type 0} → Result A → (A → Result B) → Result B
ok a then_ok f = f a
raised e then_ok f = raised e

-- The branch for a `usage` object.
unfoldable pub reported_usage : Fields → TokenPlan → Result UsageRecord
reported_usage usage plan =
    to_int_or_zero (get_default "prompt_tokens" (int plan.prompt_tokens) usage) then_ok λ prompt.
    to_int_or_zero (get_default "completion_tokens" (int (pos 0)) usage) then_ok λ completion.
    to_int_or_zero (get_default "total_tokens" (int (prompt +ℤ completion)) usage) then_ok λ total.
    ok (record {
      prompt_tokens = prompt;
      completion_tokens = completion;
      total_tokens = total;
      status = "completed";
    })

-- The text under `key` and then `"content"` of one choice, where all of it is there.
abbrev text_of : Option Json → Text
text_of (some (str s)) = s
text_of _ = []

abbrev content_of : Option Json → Text
content_of (some (obj fs)) = text_of (get "content" fs)
content_of _ = []

abbrev pub choice_text : String → Json → Text
choice_text key (obj choice) = content_of (get key choice)
choice_text key _ = []

unfoldable pub choices_text : String → Items → Text
choices_text key nil = []
choices_text key (cons c cs) = choice_text key c ++ choices_text key cs

abbrev pub response_text : String → Option Json → Text
response_text key (some (arr choices)) = choices_text key choices
response_text key _ = []

-- `usage_from_stream_text`
unfoldable pub usage_from_stream_text : Text → TokenPlan → TokenEstimator → String → UsageRecord
usage_from_stream_text text plan estimator status =
    let completion_tokens = estimator text in
    record {
      prompt_tokens = plan.prompt_tokens;
      completion_tokens = completion_tokens;
      total_tokens = plan.prompt_tokens +ℤ completion_tokens;
      status = status;
    }

-- The branch that estimates from the text of the assistant.
abbrev pub estimated_usage : Fields → TokenPlan → TokenEstimator → UsageRecord
estimated_usage response plan estimator =
    let completion_tokens = estimator (response_text "message" (get "choices" response)) in
    record {
      prompt_tokens = plan.prompt_tokens;
      completion_tokens = completion_tokens;
      total_tokens = plan.prompt_tokens +ℤ completion_tokens;
      status = "completed";
    }

abbrev pub usage_by : Option Json → Fields → TokenPlan → TokenEstimator → Result UsageRecord
usage_by (some (obj usage)) response plan estimator = reported_usage usage plan
usage_by _ response plan estimator = ok (estimated_usage response plan estimator)

-- `usage_from_response`
unfoldable pub usage_from_response : Fields → TokenPlan → TokenEstimator → Result UsageRecord
usage_from_response response plan estimator =
    usage_by (get "usage" response) response plan estimator

abbrev pub data_prefix : Text
data_prefix = codes "data: "

-- What is done with the parsed payload: `.get` fails on what is no object.
abbrev pub delta_of : Option Json → Result Text
delta_of none = ok []
delta_of (some (obj parsed)) = ok (response_text "delta" (get "choices" parsed))
delta_of (some _) = raised (error "object has no attribute 'get'")

-- `stream_delta_text`; `json_loads` answers `none` for `json.JSONDecodeError`.
unfoldable pub stream_delta_text : (Text → Option Json) → Text → Result Text
stream_delta_text json_loads event =
    let payload = strip (remove_prefix event data_prefix) in
    if starts_with event data_prefix
    then (if eqb_text payload (codes "[DONE]") then ok [] else delta_of (json_loads payload))
    else ok []
